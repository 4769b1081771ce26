-- ===== src/Packet/PublishBytes.antt =====
-- Reading the bytes of a PUBLISH behind its fixed header (packet/mqtt_publish.cpp).
use shan_mqtt_broker.Packet.AckTrip.{uint16_bytes}
use shan_mqtt_broker.Packet.Text.{decode_string}
use shan_mqtt_broker.Wire.Bind.{run_ok, run_passed}
use shan_mqtt_broker.Packet.Publish.{
  decode_flagged, has_wildcard, header_len, Publish, decode_named, decode_payload, has_packet_id,
  starts_with_dollar,
}
use shan_mqtt_broker.Packet.FixedHeader.{FixedHeader}
use shan_mqtt_broker.Packet.Utf8.{string_read, Utf8}
use shan_mqtt_broker.Base.{
  ℕ, ◌+◌, ◌-◌, ◌/◌, ◌%◌, ◌^◌, ◌<◌, ◌≤◌, ◌≡◌, refl, ap, ◌∙◌, Bool, true, false, ◌&&◌, [], ◌∷◌, ◌++◌,
  Bytes, length, arith, ltb, ◌==◌, is_empty, if◌then◌else◌, length-append,
}
use shan_mqtt_broker.Outcome.{ok}
use shan_mqtt_broker.Wire.Decoder.{
  ◌>>=◌, ret, get_uint16, Decoder, written, run_bytes, write_uint16, take, drop,
}

pub take_front : (xs ys : Bytes) → take (length xs) (xs ++ ys) ≡ xs
take_front [] ys = refl
take_front (x ∷ xs) ys = rw (take_front xs ys) refl

pub drop_front : (xs ys : Bytes) → drop (length xs) (xs ++ ys) ≡ ys
drop_front [] ys = refl
drop_front (x ∷ xs) ys = drop_front xs ys

-- What a client may publish: a topic name without '$' in front and without wildcards, in UTF-8.
pub record IsTopicName (name : Bytes) : Type 0 where
  pub text : Utf8 name
  pub short : length name ≤ 0xffff
  pub filled : is_empty name ≡ false
  pub no_dollar : starts_with_dollar name ≡ false
  pub no_wildcard : has_wildcard name ≡ false

pub id_read :
    (b : Bool) (id : ℕ) (k : ℕ → Decoder Publish) (xs : Bytes)
    → run_bytes
        ((if b then get_uint16 else ret 0) >>= k)
        (written (if b then write_uint16 id ∷ [] else []) ++ xs)
      ≡ run_bytes (k (if b then id else 0)) xs
id_read true id k xs = ap (λ i. run_bytes (k i) xs) (uint16_bytes id)
id_read false id k xs = refl

abbrev pub built : FixedHeader → Bool → ℕ → Bool → Bytes → Bytes → ℕ → Publish
built fh dup qos retain name payload id = record {
  fh = fh;
  dup = dup;
  qos = qos;
  retain = retain;
  topic_name = name;
  packet_id = id;
  payload = payload;
}

-- The packet id of the QoS levels that have one.
abbrev pub id_of : ℕ → ℕ → ℕ
id_of qos id = if has_packet_id qos then id else 0

module _ (fh : FixedHeader) (dup : Bool) (qos : ℕ) (retain : Bool) (name payload rest : Bytes) where
  pub payload_read :
      (id : ℕ)
      → fh.remaining_length ≡ header_len qos name + length payload
      → fh.remaining_length < 2 ^ 21
      → run_bytes (decode_payload fh dup qos retain name id) (payload ++ rest)
        ≡ ok (built fh dup qos retain name payload id, rest)
  unfolding decode_payload
  payload_read id e h =
      let n : (fh.remaining_length + 2 ^ 64 - header_len qos name) % 2 ^ 64 ≡ length payload =
        omega arith in
      let enough : ltb (length (payload ++ rest)) (length payload) ≡ false =
        ground (arith, length-append payload rest) in
      rw n (
        run_passed (ltb (length (payload ++ rest)) (length payload)) _ _ (payload ++ rest) enough
        ∙ rw (take_front payload rest, drop_front payload rest) refl)

  pub named_read :
      (id : ℕ)
      → IsTopicName name
      → fh.remaining_length ≡ header_len qos name + length payload
      → fh.remaining_length < 2 ^ 21
      → run_bytes
          (decode_named fh dup qos retain name)
          (written (if has_packet_id qos then write_uint16 id ∷ [] else []) ++ (payload ++ rest))
        ≡ ok (built fh dup qos retain name payload (id_of qos id), rest)
  unfolding decode_named
  named_read id v e h =
      let xs =
        written (if has_packet_id qos then write_uint16 id ∷ [] else []) ++ (payload ++ rest) in
      run_passed (is_empty name) _ _ xs v.filled
      ∙ run_passed (starts_with_dollar name) _ _ xs v.no_dollar
      ∙ run_passed (has_wildcard name) _ _ xs v.no_wildcard
      ∙ id_read (has_packet_id qos) id (decode_payload fh dup qos retain name) (payload ++ rest)
      ∙ payload_read (id_of qos id) e h

  pub flagged_read :
      (id : ℕ)
      → qos < 3
      → (qos == 0 && dup) ≡ false
      → IsTopicName name
      → fh.remaining_length ≡ header_len qos name + length payload
      → fh.remaining_length < 2 ^ 21
      → run_bytes (decode_flagged fh dup qos retain) (
          length name / 256
          ∷ (length name % 256
              ∷ (name
                  ++ (written (if has_packet_id qos then write_uint16 id ∷ [] else [])
                      ++ (payload ++ rest)))))
        ≡ ok (built fh dup qos retain name payload (id_of qos id), rest)
  unfolding decode_flagged
  flagged_read id q d v e h =
      let tail =
        written (if has_packet_id qos then write_uint16 id ∷ [] else []) ++ (payload ++ rest) in
      let xs : Bytes = length name / 256 ∷ (length name % 256 ∷ (name ++ tail)) in
      run_passed (qos == 0 && dup) _ _ xs d
      ∙ run_passed (qos == 3) _ _ xs (ground arith)
      ∙ run_ok decode_string (decode_named fh dup qos retain) xs
          (string_read name tail v.text v.short)
      ∙ named_read id v e h

-- The flags that the second constructor collects.
