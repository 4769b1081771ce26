-- ===== src/Tests/OnServer.antt =====
-- The theorems on the broker's handlers, on the broker with two clients.
use shan_mqtt_broker.Server.ConnectRestored.{connect_restores}
use shan_mqtt_broker.Packet.Connect.{Connect}
use shan_mqtt_broker.Packet.Any.{connect}
use shan_mqtt_broker.Base.{◌*◌, ◌≡◌, refl, true, false, none, some, List, [], ◌∷◌, ◌++◌, arith}
use shan_mqtt_broker.Outcome.{ok, err, Error}
use shan_mqtt_broker.Constants.{id_client_idle}
use shan_mqtt_broker.Packet.Subscribe.{Subscribe}
use shan_mqtt_broker.Packet.AckTrip.{suback_of}
use shan_mqtt_broker.Packet.Any
use shan_mqtt_broker.Session.{new_session}
use shan_mqtt_broker.Server.State.{Client, Server, write, reset_timer, emit, ◌>>◌}
use shan_mqtt_broker.Server.Maps.{at}
use shan_mqtt_broker.Server.Topics.{TopicPtr}
use shan_mqtt_broker.Server.Registry.{get_client_ptr, get_session_ptr, publish_retained_message}
use shan_mqtt_broker.Server.Connecting.{resume, handle_connect}
use shan_mqtt_broker.Server.Subscribing.{handle_subscribe}
use shan_mqtt_broker.Server.Leaving.{handle_disconnect}
use shan_mqtt_broker.Server.ConnectRules.{connect_refused, with_output, closes, connack_of}
use shan_mqtt_broker.Server.State.{update}
use shan_mqtt_broker.Server.ConnectAccepted.{connect_clean_session, closes_old, cleared}
use shan_mqtt_broker.Server.Granting.{granted_codes, handle_subscribe_answers}
use shan_mqtt_broker.Server.Departure.{disconnect_leaves}
use shan_mqtt_broker.Handler.{handle_packet}
use shan_mqtt_broker.Handler.FirstPacket.{first_packet_refused}
use shan_mqtt_broker.Tests.World.{
  example_env, example_server, example_connect, example_message, alice, filter_plus, name_a,
  name_tu,
}

connect_refused_example : handle_connect example_env 1 7 (example_connect 3) example_server ≡ (
  ok tt,
  with_output example_server (
      closes example_env 7 (example_connect 3) example_server
      ++ write 7 (Any.connack (connack_of false 1)) ∷ []),
)
connect_refused_example =
    connect_refused example_env 1 7 (example_connect 3) example_server refl (omega arith)

connect_clean_session_example :
    (c : Client) × (s' : Server) × (handle_connect example_env 1 9
        (example_connect 4)
        example_server
      ≡ (ok tt, s'))
    × (get_client_ptr name_a s' ≡ some c)
    × (s'.param 9 ≡ some c)
    × (s'.param
        ≡ update 9
            (some c)
            (cleared example_env (get_client_ptr name_a example_server) example_server.param))
    × (c.client_id ≡ name_a)
    × (get_session_ptr name_a s' ≡ some c.session)
    × (s'.heap c.session ≡ new_session)
    × (s'.output
        ≡ []
          ++ (closes example_env 9 (example_connect 4) example_server
              ++ (closes_old example_env (get_client_ptr name_a example_server)
                  ++ write 9 (Any.connack (connack_of false 0))
                    ∷ reset_timer 9 id_client_idle (60 * 1500)
                    ∷ [])))
connect_clean_session_example =
    connect_clean_session example_env 1 9 (example_connect 4) example_server refl refl refl

-- The same client without "clean session".
abbrev returning_connect : Connect
returning_connect = record (example_connect 4) {
  fields = record ((example_connect 4).fields) { clean_session = false };
}

connect_restores_example :
    (c : Client) × (s' : Server) × (handle_connect example_env 1 9 returning_connect example_server
      ≡ resume c s')
    × (get_client_ptr name_a s' ≡ some c)
    × (s'.param 9 ≡ some c)
    × (c.client_id ≡ name_a)
    × (c.session ≡ 1)
    × (s'.heap ≡ example_server.heap)
    × (s'.output
        ≡ []
          ++ (closes example_env 9 returning_connect example_server
              ++ (closes_old example_env (get_client_ptr name_a example_server)
                  ++ write 9 (Any.connack (connack_of true 0))
                    ∷ reset_timer 9 id_client_idle (60 * 1500)
                    ∷ [])))
unfolding at
connect_restores_example =
    connect_restores example_env 1 9 1 returning_connect example_server refl refl refl refl

-- Two filters, the second with a QoS that is none.
abbrev example_subscribe : Subscribe
example_subscribe = record {
  fh = record { packet_type = 8; flags = 2; remaining_length = 14 };
  packet_id = 6;
  topic_filters = filter_plus ∷ (name_tu ∷ []);
  is_wild = true ∷ (false ∷ []);
  max_qoses = 2 ∷ (3 ∷ []);
}

handle_subscribe_answers_example :
    (exacts : List TopicPtr) × (wilds : List TopicPtr) × (s' : Server) × (handle_subscribe 7
        example_subscribe example_server
      ≡ (emit (
              write 7 (
                Any.suback (
                  suback_of 6 (granted_codes alice (filter_plus ∷ (name_tu ∷ [])) (2 ∷ (3 ∷ []))))))
            >> publish_retained_message alice exacts wilds)
          s')
    × (s'.output ≡ [])
handle_subscribe_answers_example =
    handle_subscribe_answers alice 7 example_subscribe example_server refl refl refl (omega arith)

disconnect_leaves_example :
    (s' : Server) × (handle_disconnect 7 example_server ≡ (ok tt, s'))
    × (s'.param 7 ≡ none)
    × (get_client_ptr name_a s' ≡ none)
    × (get_session_ptr name_a s' ≡ none)
    × (s'.heap ≡ example_server.heap)
    × (s'.output ≡ [] ++ reset_timer 7 3 10000 ∷ [])
disconnect_leaves_example = disconnect_leaves alice 7 example_server refl

first_packet_refused_example :
    (e : Error) × (handle_packet example_env 1 5 (Any.publish example_message) example_server
      ≡ (err e, example_server))
first_packet_refused_example =
    first_packet_refused example_env 1 5 (Any.publish example_message) example_server refl refl
