-- ===== src/Server/Kept/Leaving.antt =====
-- What `handle_pingreq`, `handle_disconnect` and `handle_channel_disconnected` keep
-- (player/mqtt_server.cpp).
use shan_mqtt_broker.Base.{
  if-P, ℕ, true, false, Option, none, some, List, [], ◌∷◌, Bytes, if◌then◌else◌,
}
use shan_mqtt_broker.Outcome.{out_of_range}
use shan_mqtt_broker.Packet.Publish.{make_publish}
use shan_mqtt_broker.Packet.Pings.{make_pingresp}
use shan_mqtt_broker.Packet.Any
use shan_mqtt_broker.Session.{Subscription}
use shan_mqtt_broker.Server.Maps.{at, erase, modify}
use shan_mqtt_broker.Server.State.{Client, Topic, Server, write, M, pure, raise}
use shan_mqtt_broker.Server.Keeping.{
  Whatever, Safe, bind-Keeps, then-Keeps, try_catch-Keeps, lift_bind-Keeps, get_bind-Keeps,
  pure-Keeps, raise-Keeps, skip-Safe, step-Safe, when-Safe,
}
use shan_mqtt_broker.Server.Rules.{Sending, Rules}
use shan_mqtt_broker.Server.Topics.{exact, wild, topic_unsubscribe, topic_empty}
use shan_mqtt_broker.Server.Registry.{
  publish_will_message, drop_subscriber, unsubscribe_one, unsubscribe_each,
}
use shan_mqtt_broker.Server.Leaving.{
  handle_pingreq, handle_disconnect, handle_channel_disconnected, forget, leave,
}
use shan_mqtt_broker.Server.Kept.Sending.{
  agent-Safe, emit-Safe, send-Safe, session_packet_id-Safe, topic_publish-Safe,
}

abbrev drop_found : Client → Bytes → List (Bytes × Topic) → Option Topic → List (Bytes × Topic)
drop_found c f m none = m
drop_found c f m (some t) =
    let m' = modify f (topic_unsubscribe c) m in
    if topic_empty (topic_unsubscribe c t) then erase f m' else m'

dropped_found :
    (Q : List (Bytes × Topic) → Type 0) (c : Client) (f : Bytes) (m : List (Bytes × Topic))
    (o : Option Topic)
    → Q m
    → Q (modify f (topic_unsubscribe c) m)
    → Q (erase f (modify f (topic_unsubscribe c) m))
    → Q (drop_found c f m o)
dropped_found Q c f m none h hm he = h
dropped_found Q c f m (some t) h hm he = if-P Q (topic_empty (topic_unsubscribe c t)) _ _ he hm

dropped :
    (Q : List (Bytes × Topic) → Type 0) (c : Client) (f : Bytes) (m : List (Bytes × Topic))
    → Q m
    → Q (modify f (topic_unsubscribe c) m)
    → Q (erase f (modify f (topic_unsubscribe c) m))
    → Q (drop_subscriber c f m)
unfolding drop_subscriber
dropped Q c f m = dropped_found Q c f m (at f m)

module _ {P : Server → Type 0} (r : Sending P) where
  pub handle_pingreq-Safe : (channel : ℕ) → Safe P (handle_pingreq channel)
  unfolding handle_pingreq
  handle_pingreq-Safe channel =
      bind-Keeps {Q = Whatever} (agent-Safe channel)
        λ c _. send-Safe r make_pingresp (λ p. write channel (Any.pingresp p))

module _ {P : Server → Type 0} (r : Rules P) where
  pub unsubscribe_one_lem :
      (c : Client) (sub : Subscription) (s : Server) → P s → P (unsubscribe_one c sub s)
  unsubscribe_one_lem c sub s p =
      let f = sub.topic_filter in
      let pw = r.unsubscribe_law (wild f) c s p in
      let pe = r.unsubscribe_law (exact f) c s p in
      if-P P sub.is_wild _ _
        (dropped (λ m. P (record s { wild_topics = m })) c f s.wild_topics p pw
          (r.erase_topic_law true f _ pw))
        (dropped (λ m. P (record s { topics = m })) c f s.topics p pe
          (r.erase_topic_law false f _ pe))

  pub unsubscribe_each_lem :
      (c : Client) (subs : List Subscription) (s : Server) → P s → P (unsubscribe_each c subs s)
  unfolding unsubscribe_each
  unsubscribe_each_lem c [] s p = p
  unsubscribe_each_lem c (sub ∷ subs) s p =
      unsubscribe_each_lem c subs (unsubscribe_one c sub s) (unsubscribe_one_lem c sub s p)

  forget-Safe : (c : Client) → Safe P (forget c)
  unfolding forget
  forget-Safe c =
      then-Keeps (step-Safe (λ s. unsubscribe_each_lem c (s.heap c.session).subscriptions s)) (
        then-Keeps
          (when-Safe c.clean_session
            (λ _. step-Safe (r.registering.delete_session_law c.client_id)))
          (step-Safe (r.registering.delete_client_law c.client_id)))

  found_topic-Safe :
      (o : Option Topic)
      → Safe P (elim o as (λ _. M Topic) [ none ↦ raise out_of_range | some t ↦ pure t ])
  found_topic-Safe none = raise-Keeps _
  found_topic-Safe (some t) = pure-Keeps t tt

  publish_will_message-Safe : (c : Client) → Safe P (publish_will_message c)
  unfolding publish_will_message
  publish_will_message-Safe c = when-Safe c.will_flag λ _.
      try_catch-Keeps
        (get_bind-Keeps λ s.
          bind-Keeps {Q = Whatever} (found_topic-Safe (at c.will_topic s.topics)) λ t _.
            bind-Keeps {Q = Whatever} (session_packet_id-Safe r.sending c.session) λ id _.
              lift_bind-Keeps
                (make_publish false c.will_qos c.will_retain c.will_topic id c.will_message)
                λ p.
                  bind-Keeps {Q = Whatever} (topic_publish-Safe r.sending (exact c.will_topic) t p)
                    λ _ _. skip-Safe)
        (λ _. skip-Safe)

  pub handle_disconnect-Safe : (channel : ℕ) → Safe P (handle_disconnect channel)
  unfolding handle_disconnect
  handle_disconnect-Safe channel = bind-Keeps {Q = Whatever} (agent-Safe channel) λ c _.
      then-Keeps (step-Safe (r.registering.clear_law channel))
        (then-Keeps (forget-Safe c) (emit-Safe r.sending _))

  leave-Safe : (o : Option Client) → Safe P (leave o)
  leave-Safe none = skip-Safe
  leave-Safe (some c) = then-Keeps (publish_will_message-Safe c) (forget-Safe c)

  pub handle_channel_disconnected-Safe :
      (channel : ℕ) → Safe P (handle_channel_disconnected channel)
  unfolding handle_channel_disconnected
  handle_channel_disconnected-Safe channel = get_bind-Keeps λ s. leave-Safe (s.param channel)
