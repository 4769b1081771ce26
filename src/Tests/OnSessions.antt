-- ===== src/Tests/OnSessions.antt =====
-- The theorems on packet ids, on concrete sessions.
use shan_mqtt_broker.Base.{ℕ, ◌≤◌, ◌≡◌, true, false, [], ◌∷◌, arith}
use shan_mqtt_broker.Outcome.{ok}
use shan_mqtt_broker.Tests.World.{example_message}
use shan_mqtt_broker.Session.{
  add_publish_for_rec, Session, new_session, new_packet_id, is_used, increment,
  release_publish_for_rec, add_packet_id_for_pubcomp, release_packet_id_for_pubcomp,
}
use shan_mqtt_broker.Session.PacketIds.{new_packet_id_fresh}
use shan_mqtt_broker.Session.Exchanges.{qos2_exchange_frees, repeated_pubrec_keeps_id}

-- The counter is about to wrap, and the first two ids after it are waiting.
abbrev wrapping_session : Session
wrapping_session = record new_session {
  next_packet_id = 65535;
  packet_id_for_pubcomp = 65535 ∷ (1 ∷ []);
}

new_packet_id_fresh_example :
    (id : ℕ) × (new_packet_id wrapping_session
      ≡ ok (id, record wrapping_session { next_packet_id = increment id }))
    × (1 ≤ id)
    × (id ≤ 65535)
    × (is_used wrapping_session id ≡ false)
new_packet_id_fresh_example = new_packet_id_fresh wrapping_session (omega arith) (omega arith)

qos2_exchange_frees_example :
    is_used
      (release_packet_id_for_pubcomp 5 (
        add_packet_id_for_pubcomp 5
          (release_publish_for_rec 5 (add_publish_for_rec example_message new_session))))
      5
    ≡ is_used new_session 5
qos2_exchange_frees_example = qos2_exchange_frees example_message new_session 5

repeated_pubrec_keeps_id_example :
    is_used
      (release_packet_id_for_pubcomp 5 (
        add_packet_id_for_pubcomp 5 (
          release_publish_for_rec 5
            (add_packet_id_for_pubcomp 5 (release_publish_for_rec 5 new_session)))))
      5
    ≡ true
repeated_pubrec_keeps_id_example = repeated_pubrec_keeps_id 5 new_session
