-- ===== src/Packet/ConnectTrip.antt =====
-- CONNECT (packet/mqtt_connect.cpp) without a will through `serialize` and back.
use shan_mqtt_broker.Base.{
  ℕ, ◌/◌, ◌%◌, ◌^◌, ◌≤◌, ◌<◌, ◌≡◌, refl, ap, ◌∙◌, Bool, false, Option, some, none, is_some, List,
  ◌∷◌, ◌++◌, Bytes, length, ltb, length-append, append_assoc, append-nil, arith,
}
use shan_mqtt_broker.Outcome.{ok}
use shan_mqtt_broker.Wire.Decoder.{run_bytes, written, Write, write, write_uint8, write_uint16}
use shan_mqtt_broker.Wire.Bind.{run_ok}
use shan_mqtt_broker.Packet.AckTrip.{uint16_bytes, header_of, header_of-IsHeader}
use shan_mqtt_broker.Packet.Travels.{Travels, run_into, written-append}
use shan_mqtt_broker.Packet.FixedHeader.{
  FixedHeader, check_flags, make_fixed_header, serialize_fixed_header,
}
use shan_mqtt_broker.Packet.Any
use shan_mqtt_broker.Packet.Any.{decode_packet, serialize}
use shan_mqtt_broker.Packet.Text.{encode_string, decode_string, encode_binary, decode_binary}
use shan_mqtt_broker.Packet.Utf8.{string_read}
use shan_mqtt_broker.Packet.Connect.{
  Connect, ConnectFields, length_if, encode_if, decode_if, decode_connect, make_connect,
  collect_flags, connect_length, serialize_connect,
}
use shan_mqtt_broker.Packet.ConnectBytes.{
  IsText, bytes_of, fields_of, flags_of, decode_rest, flags_read, flags_passed, user_read,
  password_read, given_writes, IsGiven,
}

user_written :
    (user : Option Bytes)
    → IsGiven IsText user
    → encode_if (is_some user) (encode_string (bytes_of user)) ≡ ok (given_writes user)
unfolding encode_string
user_written (some s) h =
    let short : ltb 0xffff (length s) ≡ false = ground (arith, h.short) in rw short refl
user_written none h = refl

password_written :
    (password : Option Bytes)
    → IsGiven (λ s. length s ≤ 0xffff) password
    → encode_if (is_some password) (encode_binary (bytes_of password)) ≡ ok (given_writes password)
unfolding encode_binary
password_written (some s) h =
    let short : ltb 0xffff (length s) ≡ false = ground (arith, h) in rw short refl
password_written none h = refl

given_length :
    (given : Option Bytes)
    → length (written (given_writes given)) ≡ length_if (is_some given) (length (bytes_of given))
given_length (some s) = rw append-nil (omega arith)
given_length none = refl

module _ (name : Bytes) (level keep_alive : ℕ) (id : Bytes) (clean : Bool)
    (user password : Option Bytes) where
  abbrev fields : ConnectFields
  fields = fields_of name level keep_alive id clean user password

  abbrev flags : ℕ
  flags = flags_of (is_some user) (is_some password) clean

  -- The bytes behind the keep alive time.
  abbrev payload : List Write
  payload = write_uint16 (length id) ∷ (write id ∷ (given_writes user ++ given_writes password))

  abbrev body : List Write
  body =
      write_uint16 (length name)
      ∷ (write name
          ∷ (write_uint8 level ∷ (write_uint8 flags ∷ (write_uint16 keep_alive ∷ payload))))

  abbrev pub connect_of : Connect
  connect_of = record {
    fh = header_of 1 0 (length (written body));
    connect_flags = flags;
    fields = fields;
  }

  pub make-connect_of : length (written body) < 2 ^ 21 → make_connect fields ≡ ok connect_of
  unfolding make_connect collect_flags connect_length check_flags make_fixed_header
  make-connect_of l =
      let fits : connect_length fields ≡ length (written body) = omega (
        arith,
        l,
        length-append name (level ∷ (flags ∷ written (write_uint16 keep_alive ∷ payload))),
        length-append id (written (given_writes user ++ given_writes password)),
        ap length (written-append (given_writes user) (given_writes password)),
        length-append (written (given_writes user)) (written (given_writes password)),
        given_length user,
        given_length password,
      ) in
      rw fits refl

  rest_read :
      (fh : FixedHeader) (rest : Bytes)
      → IsText id
      → IsGiven IsText user
      → IsGiven (λ s. length s ≤ 0xffff) password
      → run_bytes
          (decode_rest fh name level flags (is_some user) (is_some password) clean)
          (keep_alive / 256 ∷ (keep_alive % 256 ∷ (written payload ++ rest)))
        ≡ ok (record { fh = fh; connect_flags = flags; fields = fields }, rest)
  rest_read fh rest i u p =
      rw (append_assoc, written-append (given_writes user) (given_writes password), append_assoc)
        (run_ok decode_string _
            (length id / 256
              ∷ (length id % 256
                  ∷ (id
                      ++ (written (given_writes user)
                          ++ (written (given_writes password) ++ rest)))))
            (string_read id _ i.text i.short)
          ∙ run_ok (decode_if (is_some user) decode_string) _
              (written (given_writes user) ++ (written (given_writes password) ++ rest))
              (user_read user _ u)
          ∙ run_ok (decode_if (is_some password) decode_binary) _
              (written (given_writes password) ++ rest) (password_read password rest p)
          ∙ ap
              (λ k. ok (
                record {
                  fh = fh;
                  connect_flags = flags;
                  fields = record fields { keep_alive = k };
                },
                rest,
              ))
              (uint16_bytes keep_alive))

  connect_serialized :
      (hw : List Write)
      → IsText name
      → IsText id
      → IsGiven IsText user
      → IsGiven (λ s. length s ≤ 0xffff) password
      → serialize_fixed_header (header_of 1 0 (length (written body))) ≡ ok hw
      → serialize (Any.connect connect_of) ≡ ok (hw ++ body)
  unfolding serialize serialize_connect encode_string encode_binary
  connect_serialized hw n i u p e =
      let short_name : ltb 0xffff (length name) ≡ false = ground (arith, n.short) in
      let short_id : ltb 0xffff (length id) ≡ false = ground (arith, i.short) in
      rw (e, short_name, short_id, user_written user u, password_written password p) refl

  -- A CONNECT without a will whose texts are well-formed UTF-8 of at most 65535 bytes, whose password
  -- is as short and whose remaining length is below 2 ^ 21 can be made, and is written so that the
  -- decoding constructor reads the same packet back, whatever bytes follow.
  pub connect-Travels :
      IsText name
      → IsText id
      → IsGiven IsText user
      → IsGiven (λ s. length s ≤ 0xffff) password
      → length (written body) < 2 ^ 21
      → (make_connect fields ≡ ok connect_of) × Travels (Any.connect connect_of)
  unfolding check_flags decode_packet
  connect-Travels n i u p l = (
    make-connect_of l,
    record {
      body = body;
      has_header =
          header_of-IsHeader 1 0 (length (written body)) (omega arith) (omega arith) refl l;
      serialized = λ hw e. connect_serialized hw n i u p e;
      body_length = refl;
      decoded = λ rest. run_into Any.connect (decode_connect connect_of.fh) (written body ++ rest) (
          rw append_assoc (
            flags_passed connect_of.fh name level flags (is_some user) (is_some password) clean
              (keep_alive / 256 ∷ (keep_alive % 256 ∷ (written payload ++ rest))) n
              (flags_read (is_some user) (is_some password) clean)
            ∙ rest_read connect_of.fh rest i u p));
    },
  )
