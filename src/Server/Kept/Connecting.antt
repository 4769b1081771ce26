-- ===== src/Server/Kept/Connecting.antt =====
-- What the resumption of a session (`handle_connect`, player/mqtt_server.cpp) keeps, and what all of
-- `handle_connect` keeps.
use shan_mqtt_broker.Server.Kept.Registering.{connect-Safe}
use shan_mqtt_broker.Base.{ℕ, List, [], ◌∷◌, All}
use shan_mqtt_broker.Packet.Publish.{Publish}
use shan_mqtt_broker.Packet.Connect.{Connect}
use shan_mqtt_broker.Packet.Acks.{make_pubrel}
use shan_mqtt_broker.Packet.Any
use shan_mqtt_broker.Session.{Subscription}
use shan_mqtt_broker.Session.Steps.{ack_resent, rec_resent}
use shan_mqtt_broker.Server.State.{Client, Env, Server, write}
use shan_mqtt_broker.Server.Keeping.{
  Whatever, Safe, bind-Keeps, then-Keeps, get_bind-Keeps, get-Keeps, pure-Keeps, for_each-Safe,
}
use shan_mqtt_broker.Server.Rules.{Sending, Rules}
use shan_mqtt_broker.Session.Valid.{SubscriptionOk}
use shan_mqtt_broker.Server.Topics.{TopicPtr}
use shan_mqtt_broker.Server.Connecting.{
  resubscribe, send_again, retry_unacked, resume, handle_connect,
}
use shan_mqtt_broker.Server.Kept.Sending.{modify_topic-Safe, emit-Safe, send-Safe, exchange-Safe}
use shan_mqtt_broker.Server.Kept.Subscribing.{publish_retained_message-Safe, make_topic-Safe}

module _ {P : Server → Type 0} (r : Sending P) where
  send_again-Safe : (channel : ℕ) (ps : List Publish) → Safe P (send_again channel ps)
  send_again-Safe channel ps = for_each-Safe ps (λ p. emit-Safe r _)

  pub retry_unacked-Safe : (c : Client) → Safe P (retry_unacked c)
  unfolding retry_unacked
  retry_unacked-Safe c = get_bind-Keeps λ s.
      then-Keeps (send_again-Safe c.channel_id (s.heap c.session).publish_for_ack) (
        then-Keeps (exchange-Safe r c.session _ (λ t. ack_resent)) (
          then-Keeps (send_again-Safe c.channel_id (s.heap c.session).publish_for_rec) (
            then-Keeps (exchange-Safe r c.session _ (λ t. rec_resent)) (
              for_each-Safe (s.heap c.session).packet_id_for_pubcomp
                (λ id. send-Safe r (make_pubrel id) (λ p. write c.channel_id (Any.pubrel p)))))))

module _ {P : Server → Type 0} (r : Rules P) where
  resubscribe-Safe :
      (c : Client) (subs : List Subscription) (exacts wilds : List TopicPtr)
      → All SubscriptionOk subs
      → Safe P (resubscribe c subs exacts wilds)
  unfolding resubscribe
  resubscribe-Safe c [] exacts wilds h = pure-Keeps _ tt
  resubscribe-Safe c (sub ∷ subs) exacts wilds h =
      bind-Keeps {Q = Whatever} (make_topic-Safe r sub.topic_filter sub.is_wild) λ ptr _.
        then-Keeps (modify_topic-Safe ptr _ (λ s. r.subscribe_law ptr c sub.max_qos s h.0))
          (resubscribe-Safe c subs _ _ h.1)

  pub resume-Safe : (c : Client) → Safe P (resume c)
  unfolding resume
  resume-Safe c =
      bind-Keeps {Q = λ s. All SubscriptionOk (s.heap c.session).subscriptions}
        (get-Keeps (r.qos_law c.session))
        λ s h.
          bind-Keeps {Q = Whatever} (resubscribe-Safe c (s.heap c.session).subscriptions [] [] h)
            λ (exacts, wilds) _.
              then-Keeps (retry_unacked-Safe r.sending c)
                (publish_retained_message-Safe r.sending c exacts wilds)

  pub handle_connect-Safe :
      (env : Env) (rounds channel : ℕ) (packet : Connect)
      → Safe P (handle_connect env rounds channel packet)
  handle_connect-Safe env rounds channel packet =
      connect-Safe r.sending r.registering packet (λ _. resume-Safe) env rounds channel
