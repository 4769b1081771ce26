-- ===== src/Server/UnsubscribeRefines.antt =====
-- `handle_unsubscribe` (player/mqtt_server.cpp) as an update of the table of subscriptions.
use shan_mqtt_broker.Base.{
  not, ℕ, ◌≡◌, Bool, true, false, Option, none, some, List, [], ◌∷◌, Bytes, refl, sym, ap, ◌∙◌,
  Bool-cases, inl, inr,
}
use shan_mqtt_broker.Outcome.{ok}
use shan_mqtt_broker.Packet.Subscribe.{Unsubscribe}
use shan_mqtt_broker.Packet.Acks.{make_unsuback}
use shan_mqtt_broker.Packet.Any
use shan_mqtt_broker.Server.Maps.{at}
use shan_mqtt_broker.Server.State.{Client, Topic, Server, write}
use shan_mqtt_broker.Server.Topics.{deref, topic_unsubscribe, topic_empty}
use shan_mqtt_broker.Server.Registry.{topic_ptr}
use shan_mqtt_broker.Server.Publishing.{agent}
use shan_mqtt_broker.Server.Subscribing.{unsubscribe_topic, unsubscribe_loop, handle_unsubscribe}
use shan_mqtt_broker.Server.WellFormed.{WellFormed}
use shan_mqtt_broker.Server.Lawful.{rules-WellFormed}
use shan_mqtt_broker.Server.Kept.Sending.{send-Safe}
use shan_mqtt_broker.Server.Kept.Subscribing.{unsubscribe_topic-Safe}
use shan_mqtt_broker.Server.Table.{
  Table, set_grant, granted, topics_of, grant_in, dropped_grants, grant-dropped_at,
}
use shan_mqtt_broker.Server.Refinement.{Represents, sending-Represents, set_same}

-- The filters of an UNSUBSCRIBE, in order.
abbrev pub unsubscribed : Bytes → List Bytes → List Bool → Table → Table
unsubscribed client_id [] ws t = t
unsubscribed client_id (f ∷ fs) [] t = t
unsubscribed client_id (f ∷ fs) (w ∷ ws) t =
    unsubscribed client_id fs ws (set_grant w f client_id none t)

lookup : (w : Bool) (f : Bytes) (s : Server) → deref (topic_ptr w f) s ≡ at f (topics_of w s)
lookup true f s = refl
lookup false f s = refl

-- What unsubscribing from one topic does to the two maps.
left_topics :
    (c : Client) (f : Bytes) (w : Bool) (s : Server) (o : Option Topic)
    → (topics_of w (unsubscribe_topic c f w o s).1 ≡ dropped_grants c f (topics_of w s) o)
      × (topics_of (not w) (unsubscribe_topic c f w o s).1 ≡ topics_of (not w) s)
unfolding unsubscribe_topic
left_topics c f true s none = (refl, refl)
left_topics c f false s none = (refl, refl)
left_topics c f true s (some t) = elim (Bool-cases (topic_empty (topic_unsubscribe c t))) [
  | inl b ↦ rw b (refl, refl)
  | inr b ↦ rw b (refl, refl)
]
left_topics c f false s (some t) = elim (Bool-cases (topic_empty (topic_unsubscribe c t))) [
  | inl b ↦ rw b (refl, refl)
  | inr b ↦ rw b (refl, refl)
]

topic_table :
    (c : Client) (f : Bytes) (w : Bool) (s : Server) (o : Option Topic) (w' : Bool) (f' id : Bytes)
    → at f (topics_of w s) ≡ o
    → WellFormed s
    → granted (unsubscribe_topic c f w o s).1 w' f' id
      ≡ set_grant w f c.client_id none (granted s) w' f' id
topic_table c f true s o true f' id e h =
    ap (λ m. grant_in (at f' m) id) (left_topics c f true s o).0
    ∙ grant-dropped_at c f f' id s.wild_topics o e h.topics_ok.wild_ok
topic_table c f true s o false f' id e h =
    ap (λ m. grant_in (at f' m) id) (left_topics c f true s o).1
topic_table c f false s o true f' id e h =
    ap (λ m. grant_in (at f' m) id) (left_topics c f false s o).1
topic_table c f false s o false f' id e h =
    ap (λ m. grant_in (at f' m) id) (left_topics c f false s o).0
    ∙ grant-dropped_at c f f' id s.topics o e h.topics_ok.exact_ok

topic_runs :
    (c : Client) (f : Bytes) (w : Bool) (s : Server) (o : Option Topic)
    → unsubscribe_topic c f w o s ≡ (ok tt, (unsubscribe_topic c f w o s).1)
unfolding unsubscribe_topic
topic_runs c f w s none = refl
topic_runs c f true s (some t) = elim (Bool-cases (topic_empty (topic_unsubscribe c t))) [
  | inl b ↦ rw b refl
  | inr b ↦ rw b refl
]
topic_runs c f false s (some t) = elim (Bool-cases (topic_empty (topic_unsubscribe c t))) [
  | inl b ↦ rw b refl
  | inr b ↦ rw b refl
]

topic_refines :
    (c : Client) (f : Bytes) (w : Bool) (s : Server) (t : Table)
    → Represents t s
    → Represents
        (set_grant w f c.client_id none t)
        (unsubscribe_topic c f w (deref (topic_ptr w f) s) s).1
topic_refines c f w s t (h, k) =
    let o = deref (topic_ptr w f) s in
    (
      ((unsubscribe_topic-Safe rules-WellFormed c f w o).kept s h).1,
      λ w' f' id.
          topic_table c f w s o w' f' id (sym (lookup w f s)) h
          ∙ set_same w f c.client_id none (granted s) t w' f' id (k w' f' id),
    )

unsubscribe_loop_refines :
    (c : Client) (fs : List Bytes) (ws : List Bool) (s : Server) (t : Table)
    → Represents t s
    → (s' : Server) × (unsubscribe_loop c fs ws s ≡ (ok tt, s'))
      × Represents (unsubscribed c.client_id fs ws t) s'
unfolding unsubscribe_loop
unsubscribe_loop_refines c [] ws s t h = (s, refl, h)
unsubscribe_loop_refines c (f ∷ fs) [] s t h = (s, refl, h)
unsubscribe_loop_refines c (f ∷ fs) (w ∷ ws) s t h =
    let one = topic_runs c f w s (deref (topic_ptr w f) s) in
    let (s', e, h') =
      unsubscribe_loop_refines c fs ws (unsubscribe_topic c f w (deref (topic_ptr w f) s) s).1
        (set_grant w f c.client_id none t) (topic_refines c f w s t h) in
    (s', rw (one, e) refl, h')

-- From a well-formed state, on a channel with a client, an UNSUBSCRIBE takes each of its filters, with
-- its wildcard mark, out of what the client has in the table of subscriptions, and nothing else; the
-- state stays well formed.
pub unsubscribe_refines :
    (c : Client) (channel : ℕ) (p : Unsubscribe) (s : Server)
    → s.param channel ≡ some c
    → WellFormed s
    → Represents
        (unsubscribed c.client_id p.topic_filters p.is_wild (granted s))
        (handle_unsubscribe channel p s).1
unfolding handle_unsubscribe agent
unsubscribe_refines c channel p s e h =
    let t : Table = unsubscribed c.client_id p.topic_filters p.is_wild (granted s) in
    let known : agent channel s ≡ (ok c, s) = rw (e, agent) refl in
    let (s', l, rep) =
      unsubscribe_loop_refines c p.topic_filters p.is_wild s (granted s) (h, λ w f id. refl) in
    rw (known, l)
      ((send-Safe (sending-Represents t) (make_unsuback p.packet_id)
          (λ p. write channel (Any.unsuback p))).kept
        s' rep).1
