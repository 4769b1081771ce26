-- ===== src/Packet/AckTrip.antt =====
-- The short packets of the server (packet/mqtt_puback.cpp and its likes) through `serialize` and back.
use shan_mqtt_broker.Wire.Bind.{run_ok, run_passed}
use shan_mqtt_broker.Base.{
  append_assoc, true, ◌-◌, append-nil, if◌then◌else◌, ◌++◌, Bool, false, All, ◌^◌, ℕ, ◌+◌, ◌*◌, ◌/◌,
  ◌%◌, ◌<◌, ◌≡◌, refl, ap, ◌∙◌, [], ◌∷◌, Bytes, length, arith, some,
}
use shan_mqtt_broker.Outcome.{ok}
use shan_mqtt_broker.Wire.Decoder.{ret, Decoder, ◌>>=◌, write_uint8, write, run_bytes, write_uint16}
use shan_mqtt_broker.Packet.FixedHeader.{FixedHeader, check_flags}
use shan_mqtt_broker.Packet.HeaderTrip.{IsHeader}
use shan_mqtt_broker.Packet.Acks.{
  Connack, bad_return_code, decode_connack, decode_suback, serialize_connack, Suback,
  decode_return_codes, make_connack, serialize_suback, Ack, make_puback, make_pubrec, make_pubrel,
  make_pubcomp, make_unsuback, decode_puback, decode_pubrec, decode_pubrel, decode_pubcomp,
  decode_unsuback, serialize_puback, serialize_pubrec, serialize_pubrel, serialize_pubcomp,
  serialize_unsuback,
}
use shan_mqtt_broker.Packet.Any
use shan_mqtt_broker.Packet.Any.{Packet, decode_packet, serialize}
use shan_mqtt_broker.Packet.Travels.{run_into, Travels}

-- The 16-bit number of two bytes, highest first.
pub uint16_bytes : (x : ℕ) → x / 256 * 256 + x % 256 ≡ x
uint16_bytes x = omega arith

abbrev pub header_of : ℕ → ℕ → ℕ → FixedHeader
header_of packet_type flags remaining_length = record {
  packet_type = packet_type;
  flags = flags;
  remaining_length = remaining_length;
}

pub header_of-IsHeader :
    (packet_type flags remaining_length : ℕ)
    → packet_type < 16
    → flags < 16
    → check_flags packet_type flags ≡ ok tt
    → remaining_length < 2 ^ 21
    → IsHeader (header_of packet_type flags remaining_length)
header_of-IsHeader packet_type flags remaining_length t f c l = record {
  type_bound = t;
  flags_bound = f;
  flags_checked = c;
  length_bound = l;
}

pub puback-Travels : (id : ℕ) → (p : Ack) × (make_puback id ≡ ok p) × Travels (Any.puback p)
unfolding make_puback check_flags serialize serialize_puback decode_packet decode_puback
puback-Travels id = (
  _,
  refl,
  record {
    body = write_uint16 id ∷ [];
    has_header = header_of-IsHeader 4 0 2 (omega arith) (omega arith) refl (omega arith);
    serialized = λ hw e. rw e refl;
    body_length = refl;
    decoded = λ rest. rw (uint16_bytes id) refl;
  },
)

pub pubrec-Travels : (id : ℕ) → (p : Ack) × (make_pubrec id ≡ ok p) × Travels (Any.pubrec p)
unfolding make_pubrec check_flags serialize serialize_pubrec decode_packet decode_pubrec
pubrec-Travels id = (
  _,
  refl,
  record {
    body = write_uint16 id ∷ [];
    has_header = header_of-IsHeader 5 0 2 (omega arith) (omega arith) refl (omega arith);
    serialized = λ hw e. rw e refl;
    body_length = refl;
    decoded = λ rest. rw (uint16_bytes id) refl;
  },
)

-- The server can make a PUBREL with any packet id, and it is written so that the decoding
-- constructor reads the same packet back, whatever bytes follow.
pub pubrel-Travels : (id : ℕ) → (p : Ack) × (make_pubrel id ≡ ok p) × Travels (Any.pubrel p)
unfolding make_pubrel check_flags serialize serialize_pubrel decode_packet decode_pubrel
pubrel-Travels id = (
  _,
  refl,
  record {
    body = write_uint16 id ∷ [];
    has_header = header_of-IsHeader 6 2 2 (omega arith) (omega arith) refl (omega arith);
    serialized = λ hw e. rw e refl;
    body_length = refl;
    decoded = λ rest. rw (uint16_bytes id) refl;
  },
)

pub pubcomp-Travels : (id : ℕ) → (p : Ack) × (make_pubcomp id ≡ ok p) × Travels (Any.pubcomp p)
unfolding make_pubcomp check_flags serialize serialize_pubcomp decode_packet decode_pubcomp
pubcomp-Travels id = (
  _,
  refl,
  record {
    body = write_uint16 id ∷ [];
    has_header = header_of-IsHeader 7 0 2 (omega arith) (omega arith) refl (omega arith);
    serialized = λ hw e. rw e refl;
    body_length = refl;
    decoded = λ rest. rw (uint16_bytes id) refl;
  },
)

pub unsuback-Travels : (id : ℕ) → (p : Ack) × (make_unsuback id ≡ ok p) × Travels (Any.unsuback p)
unfolding make_unsuback check_flags serialize serialize_unsuback decode_packet decode_unsuback
unsuback-Travels id = (
  _,
  refl,
  record {
    body = write_uint16 id ∷ [];
    has_header = header_of-IsHeader 11 0 2 (omega arith) (omega arith) refl (omega arith);
    serialized = λ hw e. rw e refl;
    body_length = refl;
    decoded = λ rest. rw (uint16_bytes id) refl;
  },
)

-- The server can make a CONNACK with any return code below 6, and it is written so that the
-- decoding constructor reads the same packet back, whatever bytes follow.
pub connack-Travels :
    (session_present : Bool) (code : ℕ)
    → code < 6
    → (p : Connack) × (make_connack session_present code ≡ ok p) × Travels (Any.connack p)
unfolding make_connack check_flags serialize serialize_connack decode_packet decode_connack
connack-Travels session_present code h = (
  _,
  refl,
  record {
    body = write_uint8 (if session_present then 0x01 else 0x00) ∷ (write_uint8 code ∷ []);
    has_header = header_of-IsHeader 2 0 2 (omega arith) (omega arith) refl (omega arith);
    serialized = λ hw e. rw e refl;
    body_length = refl;
    decoded = λ rest. connack_read session_present rest;
  },
)
  where
    connack_read :
        (b : Bool) (rest : Bytes)
        → run_bytes (decode_packet (header_of 2 0 2)) ((if b then 0x01 else 0x00) ∷ (code ∷ rest))
          ≡ ok (
            some (
                Any.connack (record {
                  fh = header_of 2 0 2;
                  session_present = b;
                  connect_return_code = code;
                })),
            rest,
          )
    connack_read true rest = ground arith
    connack_read false rest = ground arith

decode_return_codes-append :
    (codes acc rest : Bytes)
    → All (λ c. bad_return_code c ≡ false) codes
    → run_bytes (decode_return_codes (length codes) acc) (codes ++ rest) ≡ ok (acc ++ codes, rest)
unfolding decode_return_codes
decode_return_codes-append [] acc rest h = rw append-nil refl
decode_return_codes-append (c ∷ codes) acc rest h =
    run_passed (bad_return_code c) _ _ (codes ++ rest) h.0
    ∙ decode_return_codes-append codes (acc ++ c ∷ []) rest h.1
    ∙ ap (λ t. ok (t, rest)) (append_assoc acc (c ∷ []) codes)

-- The SUBACK with these codes, as `make_suback` and `add_return_code` build it.
abbrev pub suback_of : ℕ → Bytes → Suback
suback_of id codes = record {
  fh = header_of 9 0 (2 + length codes);
  packet_id = id;
  return_codes = codes;
}

-- A SUBACK with return codes that are 0, 1, 2 or 0x80 and a remaining length below 2 ^ 21 is
-- written so that the decoding constructor reads the same packet back, whatever bytes follow.
pub suback-Travels :
    (id : ℕ) (codes : Bytes)
    → All (λ c. bad_return_code c ≡ false) codes
    → length codes + 2 < 2 ^ 21
    → Travels (Any.suback (suback_of id codes))
unfolding check_flags serialize serialize_suback decode_packet decode_suback
suback-Travels id codes good short = record {
  body = write_uint16 id ∷ (write codes ∷ []);
  has_header =
      header_of-IsHeader 9 0 (2 + length codes) (omega arith) (omega arith) refl (omega arith);
  serialized = λ hw e. rw e refl;
  body_length = rw append-nil (omega arith);
  decoded = λ rest.
      let count : 2 + length codes - 2 ≡ length codes = omega arith in
      let build : Bytes → Decoder Suback = λ c. ret (record {
        fh = header_of 9 0 (2 + length codes);
        packet_id = id / 256 * 256 + id % 256;
        return_codes = c;
      }) in
      rw append-nil (
        run_into Any.suback (decode_suback (header_of 9 0 (2 + length codes)))
          (id / 256 ∷ (id % 256 ∷ (codes ++ rest)))
          (ap (λ n. run_bytes (decode_return_codes n [] >>= build) (codes ++ rest)) count
            ∙ run_ok (decode_return_codes (length codes) []) build (codes ++ rest)
                (decode_return_codes-append codes [] rest good)
            ∙ ap
                (λ i. ok (
                  record {
                    fh = header_of 9 0 (2 + length codes);
                    packet_id = i;
                    return_codes = codes;
                  },
                  rest,
                ))
                (uint16_bytes id)));
}
