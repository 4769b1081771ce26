-- ===== src/Tests/OnConnect.antt =====
-- The theorems on CONNECT, on concrete packets.
use shan_mqtt_broker.Base.{◌≡◌, ◌<◌, ◌++◌, ◌^◌, refl, true, some, none, List, [], ◌∷◌, Bytes, arith}
use shan_mqtt_broker.Outcome.{ok, err, mqtt_error}
use shan_mqtt_broker.Wire.Decoder
use shan_mqtt_broker.Wire.Decoder.{Write, run_bytes, written}
use shan_mqtt_broker.Packet.FixedHeader.{decode_fixed_header}
use shan_mqtt_broker.Packet.Connect.{Connect, ConnectFields, make_connect, connect_length}
use shan_mqtt_broker.Packet.ConnectBytes.{IsText, fields_of}
use shan_mqtt_broker.Packet.ConnectTrip.{connect_of, connect-Travels}
use shan_mqtt_broker.Packet.ConnectWill.{AreShort, connect_will_refused}
use shan_mqtt_broker.Packet.Any.{decode_packet, serialize}
use shan_mqtt_broker.Packet.Any
use shan_mqtt_broker.Packet.Travels.{Travels}
use shan_mqtt_broker.Packet.Utf8.{nil, ascii}

-- "M"
abbrev letter : Bytes
letter = b'M' ∷ []

letter-IsText : IsText letter
letter-IsText = record { text = ascii (omega arith) (omega arith) nil; short = omega arith }

connect-Travels_example :
    (make_connect (fields_of letter 4 60 letter true (some letter) none)
      ≡ ok (connect_of letter 4 60 letter true (some letter) none))
    × Travels (Any.connect (connect_of letter 4 60 letter true (some letter) none))
connect-Travels_example =
    connect-Travels letter 4 60 letter true (some letter) none letter-IsText letter-IsText
      letter-IsText tt (omega arith)

-- A will with QoS 1
abbrev will_fields : ConnectFields
will_fields = record (fields_of letter 4 60 letter true none none) {
  will_flag = true;
  will_qos = 1;
  will_topic = letter;
  will_message = letter;
}

will_fields-AreShort : AreShort will_fields
will_fields-AreShort = record {
  name = letter-IsText;
  id = omega arith;
  topic = omega arith;
  message = omega arith;
  user = omega arith;
  pass = omega arith;
}

will_fields_fit : connect_length will_fields < 2 ^ 21
unfolding connect_length
will_fields_fit = omega arith

connect_will_refused_example :
    (p : Connect) × (make_connect will_fields ≡ ok p)
    × (ws : List Write) × (serialize (Any.connect p) ≡ ok ws)
    × (run_bytes (Decoder.◌>>=◌ decode_fixed_header decode_packet) (written ws ++ (9 ∷ []))
        ≡ err (
            mqtt_error
              "malformed packet received. (CONNECT - connect flags - will flag, will qos, will_retain)"))
connect_will_refused_example =
    connect_will_refused will_fields (9 ∷ []) refl (omega arith) refl will_fields-AreShort
      will_fields_fit
