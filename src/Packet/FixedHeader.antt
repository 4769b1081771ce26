-- ===== src/Packet/FixedHeader.antt =====
-- packet/fixed_header.cpp: the fixed header and the remaining length.
use Prim.Native.Nat.{bit_and, bit_or}
use shan_mqtt_broker.Base.{
  ℕ, zero, suc, ◌+◌, ◌*◌, ◌/◌, ◌%◌, ◌^◌, not, List, [], ◌∷◌, ◌==◌, ltb, elem, if◌then◌else◌,
}
use shan_mqtt_broker.Constants.PacketType
use shan_mqtt_broker.Outcome.{Error, mqtt_error, Result, ok, err, stuck}
use shan_mqtt_broker.Outcome
use shan_mqtt_broker.Wire.Decoder.{
  Decoder, ret, stop, get_uint8, lift, throw_if, ◌>>=◌, ◌>>◌, Write, write_uint8,
}

pub record FixedHeader : Type 0 where
  pub packet_type : ℕ
  pub flags : ℕ
  pub remaining_length : ℕ

abbrev pub bad_flags : Error
bad_flags = mqtt_error "malformed packet. (fixed header flags bits)"

abbrev types_with_flags_two : List ℕ
types_with_flags_two = PacketType.pubrel ∷ PacketType.subscribe ∷ PacketType.unsubscribe ∷ []

abbrev types_without_flags : List ℕ
types_without_flags =
    PacketType.connect ∷ PacketType.connack ∷ PacketType.puback ∷ PacketType.pubrec
    ∷ PacketType.pubcomp ∷ PacketType.suback ∷ PacketType.unsuback ∷ PacketType.pingreq
    ∷ PacketType.pingresp ∷ PacketType.disconnect ∷ []

-- The switch of both constructors. Types 0 and 15 have no case.
unfoldable pub check_flags : ℕ → ℕ → Result (Unit {0})
check_flags packet_type flags =
    if elem packet_type types_with_flags_two
    then Outcome.throw_if (not (flags == 2)) bad_flags
    else (if elem packet_type types_without_flags
        then Outcome.throw_if (not (flags == 0)) bad_flags
        else (if packet_type == PacketType.publish
            then Outcome.throw_if (bit_and flags 0x06 == 0x06) bad_flags
            else ok tt))

abbrev pub malformed_length : Error
malformed_length = mqtt_error "malformed packet received. (malformed remaining length)"

-- The do-while loop of `decode_remaining_length`; `rounds` is fuel. `length` is a `uint32_t`.
unfoldable pub decode_length_loop : ℕ → ℕ → ℕ → Decoder ℕ
decode_length_loop zero length shift = stop
decode_length_loop (suc rounds) length shift = do
  encoded_byte ← get_uint8
  let length' = (length + bit_and encoded_byte 0x7f * 2 ^ shift) % 2 ^ 32
  throw_if (ltb 21 (shift + 7)) malformed_length
  if bit_and encoded_byte 0x80 == 0
      then ret length'
      else decode_length_loop rounds length' (shift + 7)

-- The shift passes 21 in the fourth round at the latest.
unfoldable pub decode_remaining_length : Decoder ℕ
unfolding decode_length_loop
decode_remaining_length = decode_length_loop 4 0 0

-- The constructor behind its first byte.
abbrev pub decode_header_from : ℕ → ℕ → Decoder FixedHeader
decode_header_from packet_type flags = do
  lift (check_flags packet_type flags)
  remaining_length ← decode_remaining_length
  ret (record { packet_type = packet_type; flags = flags; remaining_length = remaining_length })

-- `fixed_header(util::streambuf_ptr)`
unfoldable pub decode_fixed_header : Decoder FixedHeader
decode_fixed_header = do byte ← get_uint8; decode_header_from (byte / 16) (bit_and byte 0x0f)

-- `fixed_header(packet_type, uint8_t, uint32_t)`
unfoldable pub make_fixed_header : ℕ → ℕ → ℕ → Result FixedHeader
unfolding check_flags
make_fixed_header packet_type flags remaining_length =
    Outcome.◌>>◌ (check_flags packet_type flags) (
      ok (record { packet_type = packet_type; flags = flags; remaining_length = remaining_length }))

-- The do-while loop of `encode_remaining_length`; `rounds` is fuel.
unfoldable pub encode_length_loop : ℕ → ℕ → Result (List Write)
encode_length_loop zero length = stuck
encode_length_loop (suc rounds) length =
    let rest = encode_length_loop rounds (length / 128) in
    if ltb 0 (length / 128)
    then Outcome.◌>>=◌ rest (λ ws. ok (write_uint8 (bit_or (length % 128) 0x80) ∷ ws))
    else ok (write_uint8 (length % 128) ∷ [])

-- A remaining length that passes the test fits four bytes of seven bits.
unfoldable pub encode_remaining_length : ℕ → Result (List Write)
unfolding encode_length_loop
encode_remaining_length remaining_length =
    if ltb 0x0FFFFFFF remaining_length
    then err (mqtt_error "too big remaining length.")
    else encode_length_loop 4 remaining_length

-- `fixed_header::serialize`
unfoldable pub serialize_fixed_header : FixedHeader → Result (List Write)
serialize_fixed_header fh =
    Outcome.◌>>=◌ (encode_remaining_length fh.remaining_length)
      (λ ws. ok (write_uint8 (bit_or (fh.packet_type * 16 % 256) fh.flags) ∷ ws))
