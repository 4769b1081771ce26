-- ===== src/Server/Publishing.antt =====
-- `handle_publish` and the handlers of the answers (player/mqtt_server.cpp).
use shan_mqtt_broker.Base.{
  ℕ, Bool, false, not, none, some, List, [], ◌∷◌, Bytes, ◌==◌, if◌then◌else◌,
}
use shan_mqtt_broker.Constants.{qos_at_least_once, qos_exactly_once}
use shan_mqtt_broker.Outcome.{Error, mqtt_error}
use shan_mqtt_broker.Topic.Filter.{match}
use shan_mqtt_broker.Packet.Publish.{Publish, make_publish}
use shan_mqtt_broker.Packet.Acks.{Ack, make_puback, make_pubrec}
use shan_mqtt_broker.Packet.Any
use shan_mqtt_broker.Session.{add_packet_id_for_pubrel}
use shan_mqtt_broker.Server.State.{
  Client, Topic, write, M, pure, raise, lift, ◌>>=◌, ◌>>◌, skip, when, get, emit, try_catch,
  modify_session,
}
use shan_mqtt_broker.Server.Clients.{
  client_handle_puback, client_handle_pubrec, client_handle_pubrel, client_handle_pubcomp,
}
use shan_mqtt_broker.Server.Topics.{wild, trash, topic_publish}
use shan_mqtt_broker.Server.Registry.{publish_exact_topic}

abbrev pub no_connect : Error
no_connect = mqtt_error "First packet is not a CONNECT packet."

-- `std::static_pointer_cast<mqtt_client>(ctx->param())`, and the exception where there is none.
unfoldable pub agent : ℕ → M Client
agent channel s = elim (s.param channel) [ none ↦ raise no_connect s | some c ↦ pure c s ]

-- "receiver behavior"
unfoldable pub acknowledge : ℕ → Client → Publish → M (Unit {0})
acknowledge channel c packet =
    if packet.qos == qos_at_least_once
    then (do p ← lift (make_puback packet.packet_id); emit (write channel (Any.puback p)))
    else (if packet.qos == qos_exactly_once
        then (do
          modify_session c.session (add_packet_id_for_pubrel packet.packet_id)
          p ← lift (make_pubrec packet.packet_id)
          emit (write channel (Any.pubrec p)))
        else skip)

-- The loop over `_wild_topics`. Each matching topic overwrites `sent`.
unfoldable pub publish_wild_topics : List (Bytes × Topic) → Publish → Bool → M Bool
unfolding topic_publish
publish_wild_topics [] packet sent = pure sent
publish_wild_topics ((f, t) ∷ rest) packet sent = do
  sent' ← if match f packet.topic_name then topic_publish (wild f) t packet else pure sent
  publish_wild_topics rest packet sent'

-- What goes to the topic $sys/trash: the name of the topic of a message that was sent to nobody.
unfoldable pub publish_trash : Publish → M (Unit {0})
unfolding topic_publish
publish_trash packet = do
  s ← get
  p ← lift (make_publish false 1 false s.trash_topic.topic_filter 0xffff packet.topic_name)
  sent ← topic_publish trash s.trash_topic p
  skip

-- "forwarding publish"
unfoldable pub forward : Publish → M (Unit {0})
unfolding publish_exact_topic publish_wild_topics publish_trash
forward packet = do
  sent ← try_catch (publish_exact_topic packet.topic_name packet) (λ _. pure false)
  s ← get
  sent' ← publish_wild_topics s.wild_topics packet sent
  when (not sent') (publish_trash packet)

unfoldable pub handle_publish : ℕ → Publish → M (Unit {0})
unfolding agent acknowledge forward
handle_publish channel packet = do c ← agent channel; acknowledge channel c packet; forward packet

unfoldable pub handle_puback : ℕ → Ack → M (Unit {0})
unfolding agent client_handle_puback
handle_puback channel packet = do c ← agent channel; client_handle_puback c packet

unfoldable pub handle_pubrec : ℕ → Ack → M (Unit {0})
unfolding agent client_handle_pubrec
handle_pubrec channel packet = do c ← agent channel; client_handle_pubrec c packet

unfoldable pub handle_pubrel : ℕ → Ack → M (Unit {0})
unfolding agent client_handle_pubrel
handle_pubrel channel packet = do c ← agent channel; client_handle_pubrel c packet

unfoldable pub handle_pubcomp : ℕ → Ack → M (Unit {0})
unfolding agent client_handle_pubcomp
handle_pubcomp channel packet = do c ← agent channel; client_handle_pubcomp c packet
