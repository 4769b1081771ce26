-- ===== src/Server/Kept/Subscribing.antt =====
-- What `handle_subscribe`, `handle_unsubscribe` and `publish_retained_message` keep
-- (player/mqtt_server.cpp).
use shan_mqtt_broker.Base.{
  ℕ, ◌≤◌, Bool, true, false, ◌&&◌, Option, none, some, List, [], ◌∷◌, ◌++◌, Bytes, bytes_eq, ltb,
  arith,
}
use shan_mqtt_broker.Topic.Filter.{match}
use shan_mqtt_broker.Packet.Publish.{Publish, starts_with_dollar}
use shan_mqtt_broker.Packet.Subscribe.{Subscribe, Unsubscribe}
use shan_mqtt_broker.Packet.Acks.{Suback, make_suback, add_return_code, make_unsuback}
use shan_mqtt_broker.Packet.Any
use shan_mqtt_broker.Session.{Session}
use shan_mqtt_broker.Session.Steps.{Change, added, deleted}
use shan_mqtt_broker.Server.State.{Server, Client, Topic, write, M, skip, modify_session}
use shan_mqtt_broker.Server.Keeping.{
  Whatever, Safe, bind-Keeps, then-Keeps, try_catch-Keeps, if-Keeps, lift_bind-Keeps,
  get_bind-Keeps, pure-Keeps, raise-Keeps, skip-Safe, step-Safe, when-Safe, for_each-Safe,
}
use shan_mqtt_broker.Server.Rules.{Sending, Rules}
use shan_mqtt_broker.Server.Topics.{
  TopicPtr, trash, deref, topic_publish_retained, send_retained, granted_qos, topic_unsubscribe,
  topic_empty,
}
use shan_mqtt_broker.Server.Registry.{
  publish_exact, publish_matching, publish_wild, publish_retained_message,
  get_topic_ptr_to_subscribe, topic_ptr,
}
use shan_mqtt_broker.Server.Subscribing.{
  subscribe_sys, subscribe_plain, subscribe_one, subscribe_loop, handle_subscribe, erase_topic,
  unsubscribe_topic, unsubscribe_loop, handle_unsubscribe, trash_filter,
}
use shan_mqtt_broker.Server.Kept.Sending.{
  modify_topic-Safe, agent-Safe, emit-Safe, send-Safe, client_publish-Safe,
}

module _ {P : Server → Type 0} (r : Sending P) where
  send_retained-Safe : (o : Option ℕ) (c : Client) (m : Publish) → Safe P (send_retained o c m)
  send_retained-Safe none c m = raise-Keeps _
  send_retained-Safe (some q) c m = client_publish-Safe r c q true m

  topic_publish_retained-Safe :
      (t : Topic) (c : Client) (m : Publish) → Safe P (topic_publish_retained t c m)
  unfolding topic_publish_retained
  topic_publish_retained-Safe t c m =
      try_catch-Keeps (send_retained-Safe (granted_qos c.client_id t.clients) c m)
        (λ _. raise-Keeps _)

  kept_message-Safe :
      (o : Option Publish) (f : Publish → M (Unit {0}))
      → ((m : Publish) → Safe P (f m))
      → Safe P (elim o as (λ _. M (Unit {0})) [ none ↦ skip | some m ↦ f m ])
  kept_message-Safe none f h = skip-Safe
  kept_message-Safe (some m) f h = h m

  publish_exact-Safe : (c : Client) (o : Option Topic) → Safe P (publish_exact c o)
  publish_exact-Safe c none = skip-Safe
  publish_exact-Safe c (some t) =
      kept_message-Safe t.retained_message _ (topic_publish_retained-Safe t c)

  publish_matching-Safe :
      (c : Client) (wt : Topic) (l : List (Bytes × Topic)) → Safe P (publish_matching c wt l)
  unfolding publish_matching
  publish_matching-Safe c wt [] = skip-Safe
  publish_matching-Safe c wt ((_, t) ∷ l) =
      then-Keeps
        (kept_message-Safe t.retained_message _ (λ m.
          when-Safe (match wt.topic_filter t.topic_filter)
            (λ _. topic_publish_retained-Safe wt c m)))
        (publish_matching-Safe c wt l)

  publish_wild-Safe : (c : Client) (o : Option Topic) → Safe P (publish_wild c o)
  publish_wild-Safe c none = skip-Safe
  publish_wild-Safe c (some t) = get_bind-Keeps λ s. publish_matching-Safe c t s.topics

  pub publish_retained_message-Safe :
      (c : Client) (exacts wilds : List TopicPtr) → Safe P (publish_retained_message c exacts wilds)
  unfolding publish_retained_message
  publish_retained_message-Safe c exacts wilds =
      then-Keeps
        (for_each-Safe exacts (λ ptr. get_bind-Keeps λ s. publish_exact-Safe c (deref ptr s)))
        (for_each-Safe wilds (λ ptr. get_bind-Keeps λ s. publish_wild-Safe c (deref ptr s)))

module _ {P : Server → Type 0} (r : Rules P) where
  alter_session-Safe :
      (p : ℕ) (f : Session → Session)
      → ((t : Session) → Change t (f t))
      → Safe P (modify_session p f)
  alter_session-Safe p f h = step-Safe (λ s. r.change_law p _ s (h (s.heap p)))

  pub make_topic-Safe : (f : Bytes) (w : Bool) → Safe P (get_topic_ptr_to_subscribe f w)
  make_topic-Safe f true = record { kept = λ s p. (tt, r.make_topic_law f true s p) }
  make_topic-Safe f false = record { kept = λ s p. (tt, r.make_topic_law f false s p) }

  subscribe_sys-Safe : (c : Client) (f : Bytes) (q : ℕ) → Safe P (subscribe_sys c f q)
  unfolding subscribe_sys
  subscribe_sys-Safe c f q =
      if-Keeps (c.admin && bytes_eq f trash_filter)
        (λ _.
          then-Keeps (modify_topic-Safe trash _ (λ s. r.subscribe_law trash c 2 s (omega arith)))
            (pure-Keeps _ tt))
        (λ _. pure-Keeps _ tt)

  subscribe_plain-Safe :
      (c : Client) (f : Bytes) (q : ℕ) (w : Bool) → q ≤ 2 → Safe P (subscribe_plain c f q w)
  unfolding subscribe_plain
  subscribe_plain-Safe c f q w l = bind-Keeps {Q = Whatever} (make_topic-Safe f w) λ ptr _.
      then-Keeps (modify_topic-Safe ptr _ (λ s. r.subscribe_law ptr c q s l))
        (then-Keeps (alter_session-Safe c.session _ (λ t. added f q w l)) (pure-Keeps _ tt))

  pub subscribe_one-Safe :
      (c : Client) (f : Bytes) (q : ℕ) (w : Bool) → Safe P (subscribe_one c f q w)
  unfolding subscribe_one
  subscribe_one-Safe c f q w =
      if-Keeps (ltb q 3)
        (λ l.
          if-Keeps (starts_with_dollar f) (λ _. subscribe_sys-Safe c f q)
            (λ _. subscribe_plain-Safe c f q w (ground (arith, l))))
        (λ _. pure-Keeps _ tt)

  subscribe_loop-Safe :
      (c : Client) (fs : List Bytes) (qs : List ℕ) (ws : List Bool) (suback : Suback)
      (exacts wilds : List TopicPtr)
      → Safe P (subscribe_loop c fs qs ws suback exacts wilds)
  unfolding subscribe_loop
  subscribe_loop-Safe c [] qs ws suback exacts wilds = pure-Keeps _ tt
  subscribe_loop-Safe c (f ∷ fs) [] ws suback exacts wilds = pure-Keeps _ tt
  subscribe_loop-Safe c (f ∷ fs) (q ∷ qs) [] suback exacts wilds = pure-Keeps _ tt
  subscribe_loop-Safe c (f ∷ fs) (q ∷ qs) (w ∷ ws) suback exacts wilds =
      bind-Keeps {Q = Whatever} (subscribe_one-Safe c f q w) λ one _.
        lift_bind-Keeps (add_return_code suback one.return_code) λ suback'.
          subscribe_loop-Safe c fs qs ws suback' (exacts ++ one.exacts) (wilds ++ one.wilds)

  pub handle_subscribe-Safe :
      (channel : ℕ) (packet : Subscribe) → Safe P (handle_subscribe channel packet)
  unfolding handle_subscribe
  handle_subscribe-Safe channel packet = bind-Keeps {Q = Whatever} (agent-Safe channel) λ c _.
      lift_bind-Keeps (make_suback packet.packet_id) λ suback.
        bind-Keeps {Q = Whatever}
          (subscribe_loop-Safe c packet.topic_filters packet.max_qoses packet.is_wild suback [] [])
          λ (suback', exacts, wilds) _.
            then-Keeps (emit-Safe r.sending _)
              (publish_retained_message-Safe r.sending c exacts wilds)

  erase_topic-Safe : (w : Bool) (f : Bytes) → Safe P (erase_topic w f)
  erase_topic-Safe true f = step-Safe (r.erase_topic_law true f)
  erase_topic-Safe false f = step-Safe (r.erase_topic_law false f)

  pub unsubscribe_topic-Safe :
      (c : Client) (f : Bytes) (w : Bool) (o : Option Topic) → Safe P (unsubscribe_topic c f w o)
  unfolding unsubscribe_topic
  unsubscribe_topic-Safe c f w none = skip-Safe
  unsubscribe_topic-Safe c f w (some t) =
      then-Keeps (modify_topic-Safe (topic_ptr w f) _ (r.unsubscribe_law (topic_ptr w f) c)) (
        then-Keeps (alter_session-Safe c.session _ (λ t. deleted f))
          (when-Safe (topic_empty (topic_unsubscribe c t)) (λ _. erase_topic-Safe w f)))

  unsubscribe_loop-Safe :
      (c : Client) (fs : List Bytes) (ws : List Bool) → Safe P (unsubscribe_loop c fs ws)
  unfolding unsubscribe_loop
  unsubscribe_loop-Safe c [] ws = skip-Safe
  unsubscribe_loop-Safe c (f ∷ fs) [] = skip-Safe
  unsubscribe_loop-Safe c (f ∷ fs) (w ∷ ws) = get_bind-Keeps λ s.
      then-Keeps (unsubscribe_topic-Safe c f w (deref (topic_ptr w f) s))
        (unsubscribe_loop-Safe c fs ws)

  pub handle_unsubscribe-Safe :
      (channel : ℕ) (packet : Unsubscribe) → Safe P (handle_unsubscribe channel packet)
  unfolding handle_unsubscribe
  handle_unsubscribe-Safe channel packet = bind-Keeps {Q = Whatever} (agent-Safe channel) λ c _.
      then-Keeps (unsubscribe_loop-Safe c packet.topic_filters packet.is_wild)
        (send-Safe r.sending (make_unsuback packet.packet_id) (λ p. write channel (Any.unsuback p)))
