-- ===== src/Packet/Resent.antt =====
-- `mqtt_publish::dup` (packet/mqtt_publish.h) and what `serialize` writes (packet/mqtt_publish.cpp).
use shan_mqtt_broker.Wire.Bind.{run_ok}
use shan_mqtt_broker.Packet.HeaderTrip.{decode-serialize_header}
use shan_mqtt_broker.Packet.FixedHeader.{decode_fixed_header}
use shan_mqtt_broker.Outcome.{ok}
use shan_mqtt_broker.Wire.Bind.{run_ok}
use shan_mqtt_broker.Packet.PublishBytes.{IsTopicName}
use shan_mqtt_broker.Packet.PublishTrip.{publish-Travels, publish_of}
use shan_mqtt_broker.Wire.Decoder.{◌>>=◌, written, run_bytes, Write}
use shan_mqtt_broker.Packet.Travels.{written-append, Travels}
use shan_mqtt_broker.Packet.Publish.{header_len, serialize_publish, set_dup}
use shan_mqtt_broker.Packet.Any.{header, decode_packet, serialize, Packet}
use shan_mqtt_broker.Base.{
  arith, ◌^◌, List, ℕ, ◌+◌, ◌<◌, ◌≡◌, ◌∙◌, ap, Bool, true, false, Bytes, ◌++◌, length, append_assoc,
  some,
}
use shan_mqtt_broker.Packet.Any

-- A packet that travels decodes to itself, header included.
pub run-Travels :
    (p : Packet) (rest : Bytes)
    → Travels p
    → (ws : List Write) × (serialize p ≡ ok ws)
      × (run_bytes (decode_fixed_header >>= decode_packet) (written ws ++ rest) ≡ ok (some p, rest))
run-Travels p rest t =
    let (hw, e, d) = decode-serialize_header (header p) (written t.body ++ rest) t.has_header in
    (
      hw ++ t.body,
      t.serialized hw e,
      ap (run_bytes (decode_fixed_header >>= decode_packet))
            (rw (written-append hw t.body) (append_assoc (written hw) (written t.body) rest))
          ∙ run_ok decode_fixed_header decode_packet _ d
          ∙ t.decoded rest,
    )

-- A PUBLISH of the server with a QoS below 3, a topic name that clients may use and a remaining
-- length below 2 ^ 21, marked by `dup(true)` as `handle_connect` marks the messages that it sends
-- again, is written as if it were not marked: it is decoded as the packet without DUP.
pub resent_without_dup :
    (qos : ℕ) (retain : Bool) (name : Bytes) (id : ℕ) (payload rest : Bytes)
    → qos < 3
    → IsTopicName name
    → header_len qos name + length payload < 2 ^ 21
    → (ws : List Write) × (serialize
          (Any.publish (set_dup true (publish_of false qos retain name id payload)))
        ≡ ok ws)
      × (run_bytes (decode_fixed_header >>= decode_packet) (written ws ++ rest)
          ≡ ok (some (Any.publish (publish_of false qos retain name id payload)), rest))
unfolding set_dup serialize serialize_publish
resent_without_dup qos retain name id payload rest q v h =
    run-Travels (Any.publish (publish_of false qos retain name id payload)) rest
      (publish-Travels false qos retain name id payload q (ground arith) v h)
