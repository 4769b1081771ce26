-- ===== src/Server/Departure.antt =====
-- What is left of a client that leaves (player/mqtt_server.cpp, `handle_disconnect` and
-- `handle_channel_disconnected`).
use mathlib.Core.Option
use shan_mqtt_broker.Server.Publishing.{agent}
use shan_mqtt_broker.Base.{
  inr, inl, Bool-cases, Option-cases, bytes_eq_refl, ℕ, ◌≡◌, Bool, true, false, Bytes, bytes_eq,
  bytes_eq_iff, List, [], ◌∷◌, ◌++◌, none, some, Option, if◌then◌else◌, refl, ◌∙◌, ap, arith,
}
use shan_mqtt_broker.Outcome.{ok}
use shan_mqtt_broker.Session.{Subscription}
use shan_mqtt_broker.Server.Maps.{at, erase, modify, at-erase, at-modify}
use shan_mqtt_broker.Server.State.{update_same, update, Client, Topic, Server, reset_timer}
use shan_mqtt_broker.Server.Topics.{topic_unsubscribe, topic_empty}
use shan_mqtt_broker.Server.Registry.{
  drop_subscriber, unsubscribe_each, get_client_ptr, get_session_ptr,
}
use shan_mqtt_broker.Server.Leaving.{forget, handle_disconnect}

-- What is left of a topic when a client unsubscribes: nothing, if it has no retained message and no
-- other client.
abbrev pub left_of : Client → Option Topic → Option Topic
left_of c none = none
left_of c (some t) =
    if topic_empty (topic_unsubscribe c t) then none else some (topic_unsubscribe c t)

abbrev drop_if : Bool → Client → Bytes → List (Bytes × Topic) → List (Bytes × Topic)
drop_if true c f m = erase f (modify f (topic_unsubscribe c) m)
drop_if false c f m = modify f (topic_unsubscribe c) m

drop_found :
    (c : Client) (f : Bytes) (m : List (Bytes × Topic)) (t : Topic)
    → at f m ≡ some t
    → drop_subscriber c f m ≡ drop_if (topic_empty (topic_unsubscribe c t)) c f m
unfolding drop_subscriber
drop_found c f m t e = elim (Bool-cases (topic_empty (topic_unsubscribe c t))) [
  | inl h ↦ rw (e, drop_subscriber, h) refl
  | inr h ↦ rw (e, drop_subscriber, h) refl
]

at-drop_found :
    (b : Bool) (c : Client) (f g : Bytes) (m : List (Bytes × Topic))
    → at g (drop_if b c f m) ≡ (
        if bytes_eq f g
        then (if b then none else Option.map (topic_unsubscribe c) (at g m))
        else at g m)
at-drop_found true c f g m =
    at-erase f g (modify f (topic_unsubscribe c) m)
    ∙ ground (arith, at-modify f g (topic_unsubscribe c) m)
at-drop_found false c f g m = at-modify f g (topic_unsubscribe c) m

-- Unsubscribing from one filter changes the topic of that filter alone, which goes when it is empty.
pub drop_subscriber_lem :
    (c : Client) (f g : Bytes) (m : List (Bytes × Topic))
    → at g (drop_subscriber c f m) ≡ (if bytes_eq f g then left_of c (at f m) else at g m)
unfolding drop_subscriber
drop_subscriber_lem c f g m = elim (Option-cases (at f m)) [
  | inl e ↦ rw e (ground (arith, bytes_eq_iff f g, e))
  | inr (t, e) ↦
      ap (at g) (drop_found c f m t e)
      ∙ at-drop_found (topic_empty (topic_unsubscribe c t)) c f g m
      ∙ ground (arith, bytes_eq_iff f g, e)
]

-- `unsubscribe_all` changes the topics alone.
abbrev SameButTopics : Server → Server → Type 0
SameButTopics s s' = s' ≡ record s { topics = s'.topics; wild_topics = s'.wild_topics }

unsubscribe_each-SameButTopics :
    (c : Client) (subs : List Subscription) (s : Server)
    → SameButTopics s (unsubscribe_each c subs s)
unfolding unsubscribe_each
unsubscribe_each-SameButTopics c [] s = refl
unsubscribe_each-SameButTopics c (sub ∷ subs) s = elim (Bool-cases sub.is_wild) [
  | inl h ↦ rw h (
      unsubscribe_each-SameButTopics c subs
        (record s { wild_topics = drop_subscriber c sub.topic_filter s.wild_topics }))
  | inr h ↦ rw h (
      unsubscribe_each-SameButTopics c subs
        (record s { topics = drop_subscriber c sub.topic_filter s.topics }))
]

-- The state after `forget`.
abbrev pub forgotten : Client → Server → Server
forgotten c s =
    let s' = unsubscribe_each c (s.heap c.session).subscriptions s in
    record s {
      topics = s'.topics;
      wild_topics = s'.wild_topics;
      sessions = if c.clean_session then erase c.client_id s.sessions else s.sessions;
      clients = erase c.client_id s.clients;
    }

forget_lem : (c : Client) (s : Server) → forget c s ≡ (ok tt, forgotten c s)
unfolding forget
forget_lem c s =
    let same = unsubscribe_each-SameButTopics c (s.heap c.session).subscriptions s in
    elim (Bool-cases c.clean_session) [
      | inl h ↦ rw h (
          ap
            (λ t. (
              ok tt,
              record t {
                sessions = erase c.client_id t.sessions;
                clients = erase c.client_id t.clients;
              },
            ))
            same)
      | inr h ↦ rw h (ap (λ t. (ok tt, record t { clients = erase c.client_id t.clients })) same)
    ]

at-erase_same : {V : Type 0} (k : Bytes) (m : List (Bytes × V)) → at k (erase k m) ≡ none
at-erase_same k m = at-erase k k m ∙ rw (bytes_eq_refl k) refl

at-erase_if :
    {V : Type 0} (b : Bool) (k : Bytes) (m : List (Bytes × V))
    → at k (if b then erase k m else m) ≡ (if b then none else at k m)
at-erase_if true k m = at-erase_same k m
at-erase_if false k m = refl

-- After a DISCONNECT the client is in no context and in no registration, its session is there still
-- exactly if it did not ask for a clean one, and the only call on the network is a timer of ten
-- seconds: the will message is not sent.
pub disconnect_leaves :
    (c : Client) (channel : ℕ) (s : Server)
    → s.param channel ≡ some c
    → (s' : Server) × (handle_disconnect channel s ≡ (ok tt, s'))
      × (s'.param channel ≡ none)
      × (get_client_ptr c.client_id s' ≡ none)
      × (get_session_ptr c.client_id s'
          ≡ (if c.clean_session then none else get_session_ptr c.client_id s))
      × (s'.heap ≡ s.heap)
      × (s'.output ≡ s.output ++ reset_timer channel 3 10000 ∷ [])
unfolding handle_disconnect forget agent
disconnect_leaves c channel s e =
    let known : agent channel s ≡ (ok c, s) = rw (e, agent) refl in
    let s0 = record s { param = update channel none s.param } in
    let s1 = record (forgotten c s0) { output = s.output ++ reset_timer channel 3 10000 ∷ [] } in
    (
      s1,
      rw (known, forget_lem c s0) refl,
      update_same channel none s.param,
      at-erase_same c.client_id s.clients,
      at-erase_if c.clean_session c.client_id s.sessions,
      refl,
      refl,
    )
