-- ===== src/Server/Clients.antt =====
-- player/mqtt_client.cpp.
use Prim.Native.Nat.{min}
use shan_mqtt_broker.Base.{ℕ, Bool, false, ◌==◌, if◌then◌else◌}
use shan_mqtt_broker.Constants.{qos_at_least_once, qos_exactly_once}
use shan_mqtt_broker.Outcome.{Result, ok, err, stuck}
use shan_mqtt_broker.Packet.Publish.{Publish, make_publish}
use shan_mqtt_broker.Packet.Connect.{Connect}
use shan_mqtt_broker.Packet.Acks.{Ack, make_pubrel, make_pubcomp}
use shan_mqtt_broker.Packet.Any
use shan_mqtt_broker.Session.{
  Session, new_packet_id, add_publish_for_ack, add_publish_for_rec, release_publish_for_ack,
  release_publish_for_rec, add_packet_id_for_pubcomp, release_packet_id_for_pubcomp,
  release_packet_id_for_pubrel,
}
use shan_mqtt_broker.Server.State.{
  Client, Server, write, M, lift, ◌>>=◌, ◌>>◌, skip, emit, update, modify_session,
}

-- `mqtt_client(std::shared_ptr<mqtt_connect>, std::size_t)`; the session is set later.
unfoldable pub make_client : Connect → ℕ → Client
make_client packet channel_id = record {
  channel_id = channel_id;
  client_id = packet.client_id;
  admin = false;
  clean_session = packet.clean_session;
  will_flag = packet.will_flag;
  will_qos = packet.will_qos;
  will_retain = packet.will_retain;
  will_topic = packet.will_topic;
  will_message = packet.will_message;
  session = 0;
}

-- `_session_ptr->new_packet_id()`
abbrev pub after_id : ℕ → Server → Result (ℕ × Session) → Result ℕ × Server
after_id p s (ok (id, session)) = (ok id, record s { heap = update p session s.heap })
after_id p s (err e) = (err e, s)
after_id p s stuck = (stuck, s)

unfoldable pub session_packet_id : ℕ → M ℕ
session_packet_id p s = after_id p s (new_packet_id (s.heap p))

-- A message that is to be answered stays in the session until the answer comes.
abbrev pub keep_unacked : ℕ → ℕ → Publish → M (Unit {0})
keep_unacked session qos p =
    if qos == qos_at_least_once
    then modify_session session (add_publish_for_ack p)
    else (if qos == qos_exactly_once then modify_session session (add_publish_for_rec p) else skip)

-- `mqtt_client::publish`
unfoldable pub client_publish : Client → ℕ → Bool → Publish → M (Unit {0})
unfolding session_packet_id
client_publish c max_qos retained packet = do
  let qos = min packet.qos max_qos
  id ← session_packet_id c.session
  p ← lift (make_publish false qos retained packet.topic_name id packet.payload)
  keep_unacked c.session qos p
  emit (write c.channel_id (Any.publish p))

-- `mqtt_client::handle_puback`
unfoldable pub client_handle_puback : Client → Ack → M (Unit {0})
client_handle_puback c packet = modify_session c.session (release_publish_for_ack packet.packet_id)

-- `mqtt_client::handle_pubrec`
unfoldable pub client_handle_pubrec : Client → Ack → M (Unit {0})
client_handle_pubrec c packet = do
  modify_session c.session (release_publish_for_rec packet.packet_id)
  modify_session c.session (add_packet_id_for_pubcomp packet.packet_id)
  pubrel ← lift (make_pubrel packet.packet_id)
  emit (write c.channel_id (Any.pubrel pubrel))

-- `mqtt_client::handle_pubrel`
unfoldable pub client_handle_pubrel : Client → Ack → M (Unit {0})
client_handle_pubrel c packet = do
  modify_session c.session (release_packet_id_for_pubrel packet.packet_id)
  pubcomp ← lift (make_pubcomp packet.packet_id)
  emit (write c.channel_id (Any.pubcomp pubcomp))

-- `mqtt_client::handle_pubcomp`
unfoldable pub client_handle_pubcomp : Client → Ack → M (Unit {0})
client_handle_pubcomp c packet =
    modify_session c.session (release_packet_id_for_pubcomp packet.packet_id)
