-- ===== src/Packet/ConnectWill.antt =====
-- CONNECT with a will that has a QoS or is to be retained (packet/mqtt_connect.cpp): what the
-- constructor from values makes, and what the decoding constructor says of it.
use Prim.Native.Nat.{bit_and, bit_or}
use shan_mqtt_broker.Base.{
  ℕ, zero, suc, ◌*◌, ◌/◌, ◌%◌, ◌^◌, ◌≤◌, ◌<◌, ◌≡◌, refl, ◌∙◌, Bool, true, false, List, [], ◌∷◌,
  ◌++◌, Bytes, length, ltb, leb, append_assoc, arith, if◌then◌else◌, not, ◌&&◌, ◌||◌, ◌==◌,
}
use shan_mqtt_broker.Constants.{qos_invalid}
use shan_mqtt_broker.Outcome.{Error, mqtt_error, ok, err}
use shan_mqtt_broker.Wire.Decoder.{
  run_bytes, written, Write, write, write_uint8, write_uint16, ◌>>=◌,
}
use shan_mqtt_broker.Wire.Bind.{run_ok, run_passed, run_failed, run_err}
use shan_mqtt_broker.Packet.AckTrip.{header_of, header_of-IsHeader}
use shan_mqtt_broker.Packet.HeaderTrip.{decode-serialize_header}
use shan_mqtt_broker.Packet.Travels.{written-append}
use shan_mqtt_broker.Packet.FixedHeader.{
  check_flags, make_fixed_header, decode_fixed_header, serialize_fixed_header,
}
use shan_mqtt_broker.Packet.Any
use shan_mqtt_broker.Packet.Any.{decode_packet, serialize}
use shan_mqtt_broker.Packet.Text.{encode_string, decode_string, encode_binary}
use shan_mqtt_broker.Packet.Utf8.{string_read}
use shan_mqtt_broker.Packet.Connect.{
  Connect, ConnectFields, has_flag, encode_if, decode_connect, make_connect, collect_flags,
  connect_length, serialize_connect,
}
use shan_mqtt_broker.Packet.ConnectBytes.{IsText}

abbrev every : (Bool → Bool) → Bool
every f = f true && f false

every_lem : (f : Bool → Bool) → every f ≡ true → (b : Bool) → f b ≡ true
every_lem f h true = ground (arith, h)
every_lem f h false = ground (arith, h)

abbrev flags_with : ℕ → Bool → Bool → Bool → Bool → ℕ
flags_with qos user password retain clean =
    bit_or
      (bit_or
        (bit_or (bit_or (bit_or 0 (if user then 0x80 else 0)) (if password then 0x40 else 0))
          (if retain then 0x20 else 0))
        (bit_and (qos * 8) 0x18))
      (if clean then 0x02 else 0)

-- Neither the will flag nor the reserved bit is set; the QoS or RETAIN of the will is, if there is one.
abbrev is_will_less : ℕ → Bool → Bool → Bool → Bool → Bool
is_will_less qos user password retain clean =
    not (has_flag (flags_with qos user password retain clean) 0x04)
    && (not (has_flag (flags_with qos user password retain clean) 0x01)
        && (not (not (qos == 0) || retain)
            || (not (bit_and (flags_with qos user password retain clean) 0x18 / 8 == 0)
                || has_flag (flags_with qos user password retain clean) 0x20)))

for_all :
    (qos : ℕ)
    → qos < 3
    → (every λ user.
        every
          λ password. every λ retain. every λ clean. is_will_less qos user password retain clean)
      ≡ true
for_all zero h = refl
for_all (suc zero) h = refl
for_all (suc (suc zero)) h = refl
for_all (suc (suc (suc n))) h = absurd (omega (arith, h))

will_less :
    (qos : ℕ) (user password retain clean : Bool)
    → qos < 3
    → is_will_less qos user password retain clean ≡ true
will_less qos user password retain clean h =
    every_lem (is_will_less qos user password retain)
      (every_lem (λ r. every (is_will_less qos user password r))
        (every_lem (λ p. every λ r. every (is_will_less qos user p r))
          (every_lem (λ u. every λ p. every λ r. every (is_will_less qos u p r)) (for_all qos h)
            user)
          password)
        retain)
      clean

parts :
    (a b n m : Bool)
    → (not a && (not b && (not n || m))) ≡ true
    → n ≡ true
    → (b ≡ false) × ((not a && m) ≡ true)
parts true b n m h e = absurd (ground (arith, h))
parts false true n m h e = absurd (ground (arith, h))
parts false false true m h e = (refl, h)
parts false false false m h e = absurd (ground (arith, e))

pub record AreShort (c : ConnectFields) : Type 0 where
  pub name : IsText c.protocol_name
  pub id : length c.client_id ≤ 0xffff
  pub topic : length c.will_topic ≤ 0xffff
  pub message : length c.will_message ≤ 0xffff
  pub user : length c.username ≤ 0xffff
  pub pass : length c.password ≤ 0xffff

some_string :
    (b : Bool) (s : Bytes)
    → length s ≤ 0xffff
    → (ws : List Write) × (encode_if b (encode_string s) ≡ ok ws)
unfolding encode_string
some_string true s h =
    let short : ltb 0xffff (length s) ≡ false = ground (arith, h) in
    (write_uint16 (length s) ∷ (write s ∷ []), rw short refl)
some_string false s h = (_, refl)

some_binary :
    (b : Bool) (s : Bytes)
    → length s ≤ 0xffff
    → (ws : List Write) × (encode_if b (encode_binary s) ≡ ok ws)
unfolding encode_binary
some_binary true s h =
    let short : ltb 0xffff (length s) ≡ false = ground (arith, h) in
    (write_uint16 (length s) ∷ (write s ∷ []), rw short refl)
some_binary false s h = (_, refl)

abbrev bad_will : Error
bad_will =
    mqtt_error
      "malformed packet received. (CONNECT - connect flags - will flag, will qos, will_retain)"

module _ (c : ConnectFields) where
  -- The packet that `make_connect` builds.
  abbrev packet : Connect
  packet = record {
    fh = header_of 1 0 (connect_length c);
    connect_flags = collect_flags c;
    fields = c;
  }

  made : c.will_flag ≡ true → c.will_qos < 3 → make_connect c ≡ ok packet
  unfolding make_connect make_fixed_header check_flags
  made w q = let good : leb qos_invalid c.will_qos ≡ false = ground arith in rw (w, good) refl

  abbrev named_writes : List Write → List Write
  named_writes more =
      write_uint16 (length c.protocol_name)
      ∷ (write c.protocol_name
          ∷ (write_uint8 c.protocol_level ∷ (write_uint8 (collect_flags c) ∷ more)))

  packet_serialized :
      AreShort c
      → (more : List Write) × ((hw : List Write)
          → serialize_fixed_header packet.fh ≡ ok hw
          → serialize (Any.connect packet) ≡ ok (hw ++ named_writes more))
  unfolding serialize serialize_connect encode_string
  packet_serialized h =
      let short_name : ltb 0xffff (length c.protocol_name) ≡ false = ground (arith, h.name.short) in
      let (iw, ei) = some_string true c.client_id h.id in
      let (tw, et) = some_string c.will_flag c.will_topic h.topic in
      let (mw, em) = some_binary c.will_flag c.will_message h.message in
      let (uw, eu) = some_string c.username_flag c.username h.user in
      let (pw, ep) = some_binary c.password_flag c.password h.pass in
      (
        write_uint16 c.keep_alive ∷ (iw ++ (tw ++ (mw ++ (uw ++ pw)))),
        λ hw e. rw (e, short_name, ei, et, em, eu, ep) refl,
      )

  flags_refused :
      c.will_qos < 3
      → (not (c.will_qos == 0) || c.will_retain) ≡ true
      → (has_flag (collect_flags c) 0x01 ≡ false)
        × ((not (has_flag (collect_flags c) 0x04)
              && (not (bit_and (collect_flags c) 0x18 / 8 == 0) || has_flag (collect_flags c) 0x20))
            ≡ true)
  unfolding collect_flags
  flags_refused q b =
      parts _ _ _ _
        (will_less c.will_qos c.username_flag c.password_flag c.will_retain c.clean_session q) b

  packet_refused :
      (xs : Bytes)
      → c.will_qos < 3
      → (not (c.will_qos == 0) || c.will_retain) ≡ true
      → AreShort c
      → run_bytes (decode_connect packet.fh) (
          length c.protocol_name / 256
          ∷ (length c.protocol_name % 256
              ∷ (c.protocol_name ++ (c.protocol_level ∷ (collect_flags c ∷ xs)))))
        ≡ err bad_will
  unfolding decode_connect
  packet_refused xs q b h =
      let f = collect_flags c in
      let (e0, ew) = flags_refused q b in
      run_ok decode_string _
        (length c.protocol_name / 256
          ∷ (length c.protocol_name % 256 ∷ (c.protocol_name ++ (c.protocol_level ∷ (f ∷ xs)))))
        (string_read c.protocol_name (c.protocol_level ∷ (f ∷ xs)) h.name.text h.name.short)
      ∙ run_passed (has_flag f 0x01) _ _ xs e0
      ∙ run_failed (not (has_flag f 0x04) && (not (bit_and f 0x18 / 8 == 0) || has_flag f 0x20)) _ _
          xs ew

  -- The encoding constructor accepts a will with a QoS of 1 or 2 or that is to be retained, and
  -- `serialize` writes the packet; but where its strings fit and the remaining length is below 2 ^ 21,
  -- fixed header and decoding constructor refuse what was written, whatever bytes follow, as
  -- malformed in the flags of the will.
  pub connect_will_refused :
      (rest : Bytes)
      → c.will_flag ≡ true
      → c.will_qos < 3
      → (not (c.will_qos == 0) || c.will_retain) ≡ true
      → AreShort c
      → connect_length c < 2 ^ 21
      → (p : Connect) × (make_connect c ≡ ok p)
        × (ws : List Write) × (serialize (Any.connect p) ≡ ok ws)
        × (run_bytes (decode_fixed_header >>= decode_packet) (written ws ++ rest) ≡ err bad_will)
  unfolding check_flags decode_packet
  connect_will_refused rest w q b h l =
      let v = header_of-IsHeader 1 0 (connect_length c) (omega arith) (omega arith) refl l in
      let (more, es) = packet_serialized h in
      let after = written (named_writes more) ++ rest in
      let (hw, e, d) = decode-serialize_header packet.fh after v in
      (
        packet,
        made w q,
        hw ++ named_writes more,
        es hw e,
        rw (written-append hw (named_writes more), append_assoc)
            (run_ok decode_fixed_header decode_packet (written hw ++ after) d
              ∙ run_err (decode_connect packet.fh) _ after
                  (rw append_assoc (packet_refused (written more ++ rest) q b h))),
      )
