-- ===== src/Packet/HeaderTrip.antt =====
-- The fixed header (packet/fixed_header.cpp) through `serialize` and back.
use Prim.Native.Nat.{bit_and}
use shan_mqtt_broker.Base.{
  ◌+◌, ◌*◌, ◌/◌, ◌^◌, ◌<◌, ◌≡◌, refl, ap₂, ◌∙◌, List, ◌∷◌, ◌++◌, Bytes, arith,
}
use shan_mqtt_broker.Outcome.{ok}
use shan_mqtt_broker.Wire.Decoder.{run_bytes, written, Write, write_uint8}
use shan_mqtt_broker.Wire.Bind.{run_ok, run_lift}
use shan_mqtt_broker.Packet.Bits.{join_halves, low_four}
use shan_mqtt_broker.Packet.Length.{decode-encode_length}
use shan_mqtt_broker.Packet.FixedHeader.{
  decode_header_from, FixedHeader, check_flags, decode_remaining_length, decode_fixed_header,
  serialize_fixed_header,
}

-- A header that the constructors let through, with a remaining length that the decoder takes.
pub record IsHeader (fh : FixedHeader) : Type 0 where
  pub type_bound : fh.packet_type < 16
  pub flags_bound : fh.flags < 16
  pub flags_checked : check_flags fh.packet_type fh.flags ≡ ok tt
  pub length_bound : fh.remaining_length < 2 ^ 21

after_byte :
    (fh : FixedHeader) (xs rest : Bytes)
    → IsHeader fh
    → run_bytes decode_remaining_length xs ≡ ok (fh.remaining_length, rest)
    → run_bytes decode_fixed_header ((fh.packet_type * 16 + fh.flags) ∷ xs) ≡ ok (fh, rest)
unfolding decode_fixed_header
after_byte fh xs rest v h =
    let byte = fh.packet_type * 16 + fh.flags in
    let hi : byte / 16 ≡ fh.packet_type = omega (arith, v.flags_bound) in
    let lo : bit_and byte 0x0f ≡ fh.flags =
      low_four byte (omega (arith, v.flags_bound, v.type_bound)) ∙ omega (arith, v.flags_bound) in
    ap₂ (λ t f. run_bytes (decode_header_from t f) xs) hi lo
    ∙ run_lift (check_flags fh.packet_type fh.flags) _ xs v.flags_checked
    ∙ run_ok decode_remaining_length _ xs h

pub decode-serialize_header :
    (fh : FixedHeader) (rest : Bytes)
    → IsHeader fh
    → (ws : List Write) × (serialize_fixed_header fh ≡ ok ws)
      × (run_bytes decode_fixed_header (written ws ++ rest) ≡ ok (fh, rest))
unfolding serialize_fixed_header
decode-serialize_header fh rest v =
    let (ws, e, d) = decode-encode_length fh.remaining_length rest v.length_bound in
    (
      write_uint8 (fh.packet_type * 16 + fh.flags) ∷ ws,
      rw (e, join_halves fh.packet_type fh.flags v.type_bound v.flags_bound) refl,
      after_byte fh (written ws ++ rest) rest v d,
    )
