-- ===== src/Packet/Switch.antt =====
-- Every decoding constructor (packet/*.cpp) ends, and so does the switch over them
-- (handler/mqtt_codec.cpp).
use shan_mqtt_broker.Packet.Pings.{decode_disconnect, decode_pingresp, decode_pingreq}
use shan_mqtt_broker.Packet.Text.{decode_binary, decode_string}
use shan_mqtt_broker.Packet.Acks.{
  decode_unsuback, decode_pubcomp, bad_return_code, decode_pubrel, decode_pubrec, decode_connack,
  decode_puback, decode_return_codes, decode_suback,
}
use shan_mqtt_broker.Packet.Subscribe.{
  decode_filters, decode_unsubscribe_filters, decode_subscribe, decode_unsubscribe,
}
use shan_mqtt_broker.Packet.Publish.{
  has_packet_id, header_len, has_wildcard, starts_with_dollar, decode_payload, decode_named,
  decode_flagged, decode_publish,
}
use shan_mqtt_broker.Packet.Connect.{has_flag, decode_connect, decode_if}
use shan_mqtt_broker.Base.{
  ◌%◌, if◌then◌else◌, ◌^◌, ◌||◌, ◌+◌, ◌/◌, zero, ◌∷◌, ◌&&◌, ◌++◌, suc, ℕ, Bool, true, false, Bytes,
  [], is_empty, ltb, leb, not, ◌-◌, ◌==◌, arith,
}
use Prim.Native.Nat.{bit_and}
use shan_mqtt_broker.Wire.Decoder.{ret, get_uint16, Decoder}
use shan_mqtt_broker.Wire.Ends.{Ends, Ends->>=, Ends-throw_if, Ends-if}
use shan_mqtt_broker.Packet.FixedHeader.{FixedHeader}
use shan_mqtt_broker.Packet.Ending.{
  decode_string-Ends, decode_binary-Ends, decode_filters-Ends, decode_unsubscribe_filters-Ends,
}
use shan_mqtt_broker.Packet.Any.{Packet, into, decode_packet}

decode_if-Ends : (b : Bool) (d : Decoder Bytes) → Ends d → Ends (decode_if b d)
decode_if-Ends true d e = e
decode_if-Ends false d e = tt

decode_connect-Ends : (fh : FixedHeader) → Ends (decode_connect fh)
unfolding decode_connect
decode_connect-Ends fh = Ends->>= decode_string _ decode_string-Ends λ name level flags.
    Ends-throw_if (has_flag flags 0x01) _ _ (
      Ends-throw_if
        (not (has_flag flags 0x04) && (not (bit_and flags 0x18 / 8 == 0) || has_flag flags 0x20)) _
        _
        (Ends-throw_if (leb 3 (bit_and flags 0x18 / 8)) _ _ λ keep_alive.
          Ends->>= decode_string _ decode_string-Ends λ id.
            Ends->>= (decode_if (has_flag flags 0x04) decode_string) _
              (decode_if-Ends (has_flag flags 0x04) decode_string decode_string-Ends)
              λ topic.
                Ends->>= (decode_if (has_flag flags 0x04) decode_binary) _
                  (decode_if-Ends (has_flag flags 0x04) decode_binary decode_binary-Ends)
                  λ message.
                    Ends->>= (decode_if (has_flag flags 0x80) decode_string) _
                      (decode_if-Ends (has_flag flags 0x80) decode_string decode_string-Ends)
                      λ user.
                        Ends->>= (decode_if (has_flag flags 0x40) decode_binary) _
                          (decode_if-Ends (has_flag flags 0x40) decode_binary decode_binary-Ends)
                          λ password. tt))

module _ (fh : FixedHeader) (dup : Bool) (qos : ℕ) (retain : Bool) where
  decode_payload-Ends : (name : Bytes) (id : ℕ) → Ends (decode_payload fh dup qos retain name id)
  unfolding decode_payload
  decode_payload-Ends name id = λ size.
      Ends-throw_if (ltb size ((fh.remaining_length + 2 ^ 64 - header_len qos name) % 2 ^ 64)) _ _
        λ payload. tt

  decode_named-Ends : (name : Bytes) → Ends (decode_named fh dup qos retain name)
  unfolding decode_named
  decode_named-Ends name = Ends-throw_if (is_empty name) _ _ (
      Ends-throw_if (starts_with_dollar name) _ _ (
        Ends-throw_if (has_wildcard name) _ _ (
          Ends->>= (if has_packet_id qos then get_uint16 else ret 0) _
            (Ends-if (has_packet_id qos) get_uint16 (ret 0) (λ id. tt) tt)
            (decode_payload-Ends name))))

  decode_flagged-Ends : Ends (decode_flagged fh dup qos retain)
  unfolding decode_flagged
  decode_flagged-Ends =
      Ends-throw_if (qos == 0 && dup) _ _ (
        Ends-throw_if (qos == 3) _ _
          (Ends->>= decode_string _ decode_string-Ends decode_named-Ends))

decode_publish-Ends : (fh : FixedHeader) → Ends (decode_publish fh)
unfolding decode_publish
decode_publish-Ends fh = decode_flagged-Ends fh _ _ _

decode_subscribe-Ends : (fh : FixedHeader) → Ends (decode_subscribe fh)
unfolding decode_subscribe
decode_subscribe-Ends fh = λ id.
    Ends->>= (decode_filters (fh.remaining_length - 2) (fh.remaining_length - 2) [] [] []) _
      (decode_filters-Ends (fh.remaining_length - 2) (fh.remaining_length - 2) [] [] []
        (omega arith))
      λ (filters, qoses, wilds). Ends-throw_if (is_empty filters) _ _ tt

decode_unsubscribe-Ends : (fh : FixedHeader) → Ends (decode_unsubscribe fh)
unfolding decode_unsubscribe
decode_unsubscribe-Ends fh = λ id.
    Ends->>= (decode_unsubscribe_filters (fh.remaining_length - 2) (fh.remaining_length - 2) [] [])
      _
      (decode_unsubscribe_filters-Ends (fh.remaining_length - 2) (fh.remaining_length - 2) [] []
        (omega arith))
      λ (filters, wilds). Ends-throw_if (is_empty filters) _ _ tt

decode_return_codes-Ends : (count : ℕ) (codes : Bytes) → Ends (decode_return_codes count codes)
unfolding decode_return_codes
decode_return_codes-Ends zero codes = tt
decode_return_codes-Ends (suc count) codes = λ code.
    Ends-throw_if (bad_return_code code) _ _ (decode_return_codes-Ends count (codes ++ code ∷ []))

decode_suback-Ends : (fh : FixedHeader) → Ends (decode_suback fh)
unfolding decode_suback
decode_suback-Ends fh = λ id.
    Ends->>= (decode_return_codes (fh.remaining_length - 2) []) _
      (decode_return_codes-Ends (fh.remaining_length - 2) []) λ codes. tt

decode_connack-Ends : (fh : FixedHeader) → Ends (decode_connack fh)
unfolding decode_connack
decode_connack-Ends fh =
    λ byte. Ends-throw_if (ltb 1 byte) _ _ λ code. Ends-throw_if (leb 6 code) _ _ tt

into-Ends : {A : Type 0} (class : A → Packet) (d : Decoder A) → Ends d → Ends (into class d)
into-Ends class d e = Ends->>= d _ e λ a. tt

pub decode_packet-Ends : (fh : FixedHeader) → Ends (decode_packet fh)
unfolding decode_packet decode_puback decode_pubrec decode_pubrel decode_pubcomp decode_unsuback
    decode_pingreq decode_pingresp decode_disconnect
decode_packet-Ends fh =
    let t = fh.packet_type in
    Ends-if (t == 1) _ _ (into-Ends _ (decode_connect fh) (decode_connect-Ends fh)) (
      Ends-if (t == 2) _ _ (into-Ends _ (decode_connack fh) (decode_connack-Ends fh)) (
        Ends-if (t == 3) _ _ (into-Ends _ (decode_publish fh) (decode_publish-Ends fh)) (
          Ends-if (t == 4) _ _ (λ id. tt)
            (Ends-if (t == 5) _ _ (λ id. tt)
              (Ends-if (t == 6) _ _ (λ id. tt)
                (Ends-if (t == 7) _ _ (λ id. tt)
                  (Ends-if (t == 8) _ _
                    (into-Ends _ (decode_subscribe fh) (decode_subscribe-Ends fh))
                    (Ends-if (t == 9) _ _ (into-Ends _ (decode_suback fh) (decode_suback-Ends fh)) (
                      Ends-if (t == 10) _ _
                        (into-Ends _ (decode_unsubscribe fh) (decode_unsubscribe-Ends fh))
                        (Ends-if (t == 11) _ _ (λ id. tt)
                          (Ends-if (t == 12) _ _ tt
                            (Ends-if (t == 13) _ _ tt (Ends-if (t == 14) _ _ tt tt)))))))))))))
