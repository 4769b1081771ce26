-- ===== src/Tests/OnMessages.antt =====
-- The theorems on messages and their way to the clients, on the broker with two clients.
use shan_mqtt_broker.Packet.Publish.{set_dup}
use shan_mqtt_broker.Server.Retry.{retry_resends, released, resent}
use shan_mqtt_broker.Packet.Any.{connect}
use shan_mqtt_broker.Topic.Filter.{match}
use shan_mqtt_broker.Base.{ℕ, ◌≤◌, ◌≡◌, ◌≢◌, refl, true, false, not, List, [], ◌∷◌, ◌++◌, arith}
use shan_mqtt_broker.Outcome.{ok}
use shan_mqtt_broker.Packet.Any
use shan_mqtt_broker.Session.{Session, new_session, is_used, increment}
use shan_mqtt_broker.Server.State.{Server, Effect, write, when}
use shan_mqtt_broker.Server.Maps.{at}
use shan_mqtt_broker.Server.Connecting.{retry_unacked}
use shan_mqtt_broker.Server.Publishing.{handle_publish, publish_trash}
use shan_mqtt_broker.Server.Clients.{client_publish}
use shan_mqtt_broker.Server.Delivery.{client_publish_sends, copy_of, keep}
use shan_mqtt_broker.Server.Fanout.{Deliveries}
use shan_mqtt_broker.Server.Everyone.{handle_publish_reaches, is_sent, answers}
use shan_mqtt_broker.Server.Forwarding.{recipients}
use shan_mqtt_broker.Tests.World.{example_server, example_message, alice, name_tu}

-- A session with one message for each kind of answer.
abbrev waiting_session : Session
waiting_session = record new_session {
  publish_for_ack = example_message ∷ [];
  publish_for_rec = example_message ∷ [];
  packet_id_for_pubcomp = 6 ∷ [];
}

abbrev waiting_server : Server
waiting_server = record example_server { heap = λ p. waiting_session }

retry_resends_example :
    (heap : ℕ → Session) × (retry_unacked alice waiting_server ≡ (
      ok tt,
      record waiting_server {
        heap = heap;
        output =
            [] ++ (resent 7 example_message ∷ (resent 7 example_message ∷ (released 7 6 ∷ [])));
      },
    ))
    × (heap 1 ≡ record waiting_session {
      publish_for_ack = set_dup true example_message ∷ [];
      publish_for_rec = set_dup true example_message ∷ [];
    })
    × ((j : ℕ) → j ≢ 1 → heap j ≡ waiting_session)
retry_resends_example = retry_resends alice waiting_server

client_publish_sends_example :
    (id : ℕ) × (heap : ℕ → Session) × (client_publish alice 1 false example_message example_server
      ≡ (
        ok tt,
        record example_server {
          heap = heap;
          output = [] ++ write 7 (Any.publish (copy_of 1 false example_message id)) ∷ [];
        },
      ))
    × (1 ≤ id)
    × (id ≤ 65535)
    × (is_used new_session id ≡ false)
    × (heap 1
        ≡ keep 1
            (copy_of 1 false example_message id)
            (record new_session { next_packet_id = increment id }))
    × ((j : ℕ) → j ≢ 1 → heap j ≡ new_session)
client_publish_sends_example =
    client_publish_sends alice 1 false example_message example_server (omega arith, omega arith)
      (omega arith, omega arith)

handle_publish_reaches_example :
    (s' : Server) × (out : List Effect) × (handle_publish 7 example_message example_server
      ≡ when (not (is_sent name_tu example_server)) (publish_trash example_message) s')
    × (s'.output ≡ [] ++ (answers 7 example_message ++ out))
    × Deliveries example_message (recipients name_tu example_server) out
unfolding match at
handle_publish_reaches_example =
    handle_publish_reaches 7 alice example_message example_server refl (omega arith, omega arith)
      ((omega arith, omega arith), ((omega arith, omega arith), tt))
