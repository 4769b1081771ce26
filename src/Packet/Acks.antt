-- ===== src/Packet/Acks.antt =====
-- The packets that carry a packet id and nothing else (packet/mqtt_puback.cpp, mqtt_pubrec.cpp,
-- mqtt_pubrel.cpp, mqtt_pubcomp.cpp, mqtt_unsuback.cpp), mqtt_suback.cpp and mqtt_connack.cpp.
use Prim.Native.Nat.{bit_and}
use shan_mqtt_broker.Base.{
  ℕ, zero, suc, ◌+◌, ◌-◌, ◌%◌, ◌^◌, Bool, not, ◌&&◌, List, [], ◌∷◌, ◌++◌, Bytes, ◌==◌, ltb, leb,
  if◌then◌else◌,
}
use shan_mqtt_broker.Constants.PacketType
use shan_mqtt_broker.Outcome.{mqtt_error, Result, ok, ◌>>=◌, ◌>>◌, throw_if}
use shan_mqtt_broker.Wire.Decoder
use shan_mqtt_broker.Wire.Decoder.{
  Decoder, ret, get_uint8, get_uint16, Write, write_uint8, write_uint16, write,
}
use shan_mqtt_broker.Packet.FixedHeader.{FixedHeader, make_fixed_header, serialize_fixed_header}

-- `mqtt_puback`, `mqtt_pubrec`, `mqtt_pubrel`, `mqtt_pubcomp` and `mqtt_unsuback` have these fields.
pub record Ack : Type 0 where
  pub fh : FixedHeader
  pub packet_id : ℕ

decode_ack : FixedHeader → Decoder Ack
decode_ack fh =
    Decoder.◌>>=◌ get_uint16 (λ packet_id. ret (record { fh = fh; packet_id = packet_id }))

make_ack : ℕ → ℕ → ℕ → Result Ack
unfolding make_fixed_header
make_ack packet_type flags packet_id = do
  fh ← make_fixed_header packet_type flags 2
  ok (record { fh = fh; packet_id = packet_id })

serialize_ack : Ack → Result (List Write)
unfolding serialize_fixed_header
serialize_ack p = do
  header ← serialize_fixed_header p.fh
  ok (header ++ (write_uint16 p.packet_id ∷ []))

unfoldable pub decode_puback : FixedHeader → Decoder Ack
unfolding decode_ack
decode_puback = decode_ack

unfoldable pub make_puback : ℕ → Result Ack
unfolding make_ack
make_puback = make_ack PacketType.puback 0

unfoldable pub serialize_puback : Ack → Result (List Write)
unfolding serialize_ack
serialize_puback = serialize_ack

unfoldable pub decode_pubrec : FixedHeader → Decoder Ack
unfolding decode_ack
decode_pubrec = decode_ack

unfoldable pub make_pubrec : ℕ → Result Ack
unfolding make_ack
make_pubrec = make_ack PacketType.pubrec 0

unfoldable pub serialize_pubrec : Ack → Result (List Write)
unfolding serialize_ack
serialize_pubrec = serialize_ack

unfoldable pub decode_pubrel : FixedHeader → Decoder Ack
unfolding decode_ack
decode_pubrel = decode_ack

unfoldable pub make_pubrel : ℕ → Result Ack
unfolding make_ack
make_pubrel = make_ack PacketType.pubrel 2

unfoldable pub serialize_pubrel : Ack → Result (List Write)
unfolding serialize_ack
serialize_pubrel = serialize_ack

unfoldable pub decode_pubcomp : FixedHeader → Decoder Ack
unfolding decode_ack
decode_pubcomp = decode_ack

unfoldable pub make_pubcomp : ℕ → Result Ack
unfolding make_ack
make_pubcomp = make_ack PacketType.pubcomp 0

unfoldable pub serialize_pubcomp : Ack → Result (List Write)
unfolding serialize_ack
serialize_pubcomp = serialize_ack

unfoldable pub decode_unsuback : FixedHeader → Decoder Ack
unfolding decode_ack
decode_unsuback = decode_ack

unfoldable pub make_unsuback : ℕ → Result Ack
unfolding make_ack
make_unsuback = make_ack PacketType.unsuback 0

unfoldable pub serialize_unsuback : Ack → Result (List Write)
unfolding serialize_ack
serialize_unsuback = serialize_ack

pub record Suback : Type 0 where
  pub fh : FixedHeader
  pub packet_id : ℕ
  pub return_codes : Bytes

-- `(code >= 3) && (code != 0x80)`
abbrev pub bad_return_code : ℕ → Bool
bad_return_code code = leb 3 code && not (code == 0x80)

-- The loop of the constructor over the `count` codes.
unfoldable pub decode_return_codes : ℕ → Bytes → Decoder Bytes
decode_return_codes zero codes = ret codes
decode_return_codes (suc count) codes = Decoder.◌>>=◌ get_uint8 λ code.
    Decoder.◌>>◌
      (Decoder.throw_if (bad_return_code code)
        (mqtt_error "malformed packet (SUBACK - invalid return code)"))
      (decode_return_codes count (codes ++ code ∷ []))

-- `count` is negative, and the loop is not entered, where the remaining length is below 2.
unfoldable pub decode_suback : FixedHeader → Decoder Suback
unfolding decode_return_codes
decode_suback fh = Decoder.◌>>=◌ get_uint16 λ packet_id.
    Decoder.◌>>=◌ (decode_return_codes (fh.remaining_length - 2) [])
      λ codes. ret (record { fh = fh; packet_id = packet_id; return_codes = codes })

unfoldable pub make_suback : ℕ → Result Suback
unfolding make_fixed_header
make_suback packet_id = do
  fh ← make_fixed_header PacketType.suback 0 2
  ok (record { fh = fh; packet_id = packet_id; return_codes = [] })

unfoldable pub add_return_code : Suback → ℕ → Result Suback
add_return_code p return_code = do
  throw_if (bad_return_code return_code) (mqtt_error "invalid result code. (SUBACK)")
  ok (record p {
    fh = record (p.fh) { remaining_length = (p.fh.remaining_length + 1) % 2 ^ 32 };
    return_codes = p.return_codes ++ return_code ∷ [];
  })

unfoldable pub serialize_suback : Suback → Result (List Write)
unfolding serialize_fixed_header
serialize_suback p = do
  header ← serialize_fixed_header p.fh
  ok (header ++ (write_uint16 p.packet_id ∷ (write p.return_codes ∷ [])))

pub record Connack : Type 0 where
  pub fh : FixedHeader
  pub session_present : Bool
  pub connect_return_code : ℕ

unfoldable pub decode_connack : FixedHeader → Decoder Connack
decode_connack fh = Decoder.◌>>=◌ get_uint8 λ byte.
    Decoder.◌>>◌ (Decoder.throw_if (ltb 1 byte) (mqtt_error "malformed packet. (CONNACK)")) (
      Decoder.◌>>=◌ get_uint8 λ code.
        Decoder.◌>>◌
          (Decoder.throw_if (leb 6 code)
            (mqtt_error "malformed packet. (CONNACK - unknown connect return code)"))
          (ret (record {
            fh = fh;
            session_present = not (bit_and byte 0x01 == 0);
            connect_return_code = code;
          })))

unfoldable pub make_connack : Bool → ℕ → Result Connack
unfolding make_fixed_header
make_connack session_present code = do
  fh ← make_fixed_header PacketType.connack 0 2
  ok (record { fh = fh; session_present = session_present; connect_return_code = code })

unfoldable pub serialize_connack : Connack → Result (List Write)
unfolding serialize_fixed_header
serialize_connack p = do
  header ← serialize_fixed_header p.fh
  ok (
      header
      ++ (write_uint8 (if p.session_present then 0x01 else 0x00)
          ∷ (write_uint8 p.connect_return_code ∷ [])))
