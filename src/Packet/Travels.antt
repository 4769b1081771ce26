-- ===== src/Packet/Travels.antt =====
-- What it takes of a packet that `serialize` and the decoding constructors agree on it; the codec's
-- theorem asks for this and nothing else.
use shan_mqtt_broker.Base.{◌≡◌, refl, ap, some, List, [], ◌∷◌, ◌++◌, Bytes, length, append_assoc}
use shan_mqtt_broker.Outcome.{ok}
use shan_mqtt_broker.Wire.Decoder.{
  run_bytes, written, Write, write_uint8, write_uint16, write, Decoder, ret, ◌>>=◌,
}
use shan_mqtt_broker.Wire.Bind.{run_ok}
use shan_mqtt_broker.Packet.FixedHeader.{serialize_fixed_header}
use shan_mqtt_broker.Packet.HeaderTrip.{IsHeader}
use shan_mqtt_broker.Packet.Any.{Packet, header, decode_packet, serialize}

pub record Travels (p : Packet) : Type 0 where
  pub body : List Write
  pub has_header : IsHeader (header p)
  pub serialized :
      (hw : List Write) → serialize_fixed_header (header p) ≡ ok hw → serialize p ≡ ok (hw ++ body)
  pub body_length : length (written body) ≡ (header p).remaining_length
  pub decoded :
      (rest : Bytes)
      → run_bytes (decode_packet (header p)) (written body ++ rest) ≡ ok (some p, rest)

pub written-append : (vs ws : List Write) → written (vs ++ ws) ≡ written vs ++ written ws
written-append [] ws = refl
written-append (write_uint8 x ∷ vs) ws = ap (λ t. x ∷ t) (written-append vs ws)
written-append (write_uint16 x ∷ vs) ws = rw (written-append vs ws)
written-append (write xs ∷ vs) ws = rw (written-append vs ws, append_assoc)

-- A decoder of one class, in the switch.
pub run_into :
    {A : Type 0} (class : A → Packet) (d : Decoder A) (xs : Bytes) {a : A} {rest : Bytes}
    → run_bytes d xs ≡ ok (a, rest)
    → run_bytes (d >>= λ b. ret (some (class b))) xs ≡ ok (some (class a), rest)
run_into class d xs h = run_ok d _ xs h
