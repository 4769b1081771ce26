-- ===== src/Packet/Publish.antt =====
-- packet/mqtt_publish.cpp.
use Prim.Native.Nat.{bit_and, bit_or}
use shan_mqtt_broker.Base.{
  ℕ, ◌+◌, ◌-◌, ◌*◌, ◌/◌, ◌%◌, ◌^◌, Bool, false, not, ◌&&◌, ◌||◌, List, [], ◌∷◌, ◌++◌, Bytes, ◌==◌,
  ltb, is_empty, length, if◌then◌else◌,
}
use shan_mqtt_broker.Constants.PacketType
use shan_mqtt_broker.Constants.{qos_at_least_once, qos_exactly_once, qos_invalid}
use shan_mqtt_broker.Outcome
use shan_mqtt_broker.Outcome.{Error, mqtt_error, Result, ok}
use shan_mqtt_broker.Wire.Decoder.{
  Decoder, ret, get_uint16, get_bytes, get_in_size, throw_if, ◌>>=◌, ◌>>◌, Write, write_uint16,
  write,
}
use shan_mqtt_broker.Topic.Filter.{hash, plus}
use shan_mqtt_broker.Packet.FixedHeader.{FixedHeader, make_fixed_header, serialize_fixed_header}
use shan_mqtt_broker.Packet.Text.{decode_string, encode_string}

-- `_packet_id` is not set, and never read, where the QoS is 0; it is 0 here then.
pub record Publish : Type 0 where
  pub fh : FixedHeader
  pub dup : Bool
  pub qos : ℕ
  pub retain : Bool
  pub topic_name : Bytes
  pub packet_id : ℕ
  pub payload : Bytes

-- `(_qos == QOS_AT_LEAST_ONCE) || (_qos == QOS_EXACTLY_ONCE)`
abbrev pub has_packet_id : ℕ → Bool
has_packet_id qos = qos == qos_at_least_once || qos == qos_exactly_once

abbrev pub has_wildcard : Bytes → Bool
has_wildcard [] = false
has_wildcard (ch ∷ s) = (ch == hash || ch == plus) || has_wildcard s

abbrev pub starts_with_dollar : Bytes → Bool
starts_with_dollar [] = false
starts_with_dollar (ch ∷ s) = ch == b'$'

-- `variable_header_len`, at its end
abbrev pub header_len : ℕ → Bytes → ℕ
header_len qos topic_name = length topic_name + 2 + (if has_packet_id qos then 2 else 0)

-- "payload"; `payload_len` is a 64-bit `size_t`.
unfoldable pub decode_payload : FixedHeader → Bool → ℕ → Bool → Bytes → ℕ → Decoder Publish
decode_payload fh dup qos retain topic_name packet_id = do
  let payload_len = (fh.remaining_length + 2 ^ 64 - header_len qos topic_name) % 2 ^ 64
  size ← get_in_size
  throw_if (ltb size payload_len)
      (mqtt_error "malformed packet received. (not enough data - PUBLISH payload.)")
  payload ← get_bytes payload_len
  ret (record {
    fh = fh;
    dup = dup;
    qos = qos;
    retain = retain;
    topic_name = topic_name;
    packet_id = packet_id;
    payload = payload;
  })

-- The tests of the topic name, and "packet id".
unfoldable pub decode_named : FixedHeader → Bool → ℕ → Bool → Bytes → Decoder Publish
decode_named fh dup qos retain topic_name = do
  throw_if (is_empty topic_name) (mqtt_error "malformed packet received. (empty topic name)")
  throw_if (starts_with_dollar topic_name)
      (mqtt_error "malformed packet received. (clients can not publish to topics starting with $)")
  throw_if (has_wildcard topic_name)
      (mqtt_error "malformed packet received. (the topic of the PUBLISH has a wildcard.)")
  packet_id ← if has_packet_id qos then get_uint16 else ret 0
  decode_payload fh dup qos retain topic_name packet_id

-- Behind the flags.
unfoldable pub decode_flagged : FixedHeader → Bool → ℕ → Bool → Decoder Publish
decode_flagged fh dup qos retain = do
  throw_if (qos == 0 && dup)
      (mqtt_error "malformed packet received. (publish packet with qos = 0 and dup = 1)")
  throw_if (qos == qos_invalid)
      (mqtt_error "malformed packet received. (publish packet with qos = 3)")
  topic_name ← decode_string
  decode_named fh dup qos retain topic_name

-- `mqtt_publish(const fixed_header&, util::streambuf_ptr)`
unfoldable pub decode_publish : FixedHeader → Decoder Publish
decode_publish fh =
    decode_flagged fh (not (bit_and fh.flags 0x08 == 0)) (bit_and fh.flags 0x06 / 2)
      (not (bit_and fh.flags 0x01 == 0))

-- `mqtt_publish(bool, uint8_t, bool, std::string, uint16_t, const std::vector<uint8_t>&)`. The second
-- test reads the member `_topic_name`, which is still empty there.
unfoldable pub make_publish : Bool → ℕ → Bool → Bytes → ℕ → Bytes → Result Publish
unfolding make_fixed_header
make_publish dup qos retain topic_name packet_id payload =
    Outcome.◌>>=◌ (make_fixed_header PacketType.publish 0 0) λ fh.
      Outcome.◌>>◌
        (Outcome.throw_if (qos == qos_invalid)
          (mqtt_error "try to cretae malformed packet. (PUBLISH QoS is 3)"))
        (let member_topic_name : Bytes = [] in
          Outcome.◌>>◌
            (Outcome.throw_if (ltb 0xffff (length member_topic_name))
              (mqtt_error "try to cretae malformed packet. (PUBLISH topic name is too long)"))
            (let header_length =
                (length topic_name + 2 + (if has_packet_id qos then 2 else 0)) % 2 ^ 32 in
              Outcome.◌>>◌
                (Outcome.throw_if (ltb 0x0fffffff (length payload + header_length))
                  (mqtt_error "try to cretae malformed packet. (PUBLISH payload is too long)"))
                (ok (record {
                  fh = record fh {
                    flags = bit_or fh.flags (
                        bit_or (bit_or (if dup then 0x08 else 0) (qos * 2 % 256))
                          (if retain then 0x01 else 0));
                    remaining_length = header_length + length payload;
                  };
                  dup = dup;
                  qos = qos;
                  retain = retain;
                  topic_name = topic_name;
                  packet_id = if has_packet_id qos then packet_id else 0;
                  payload = payload;
                }))))

-- `void dup(bool d) { _dup = d; }`
unfoldable pub set_dup : Bool → Publish → Publish
set_dup d p = record p { dup = d }

-- `mqtt_publish::serialize`
unfoldable pub serialize_publish : Publish → Result (List Write)
unfolding serialize_fixed_header encode_string
serialize_publish p = Outcome.◌>>=◌ (serialize_fixed_header p.fh) λ header.
    Outcome.◌>>=◌ (encode_string p.topic_name) λ topic. ok (
      header
      ++ (topic
          ++ ((if has_packet_id p.qos then write_uint16 p.packet_id ∷ [] else [])
              ++ (write p.payload ∷ []))))
