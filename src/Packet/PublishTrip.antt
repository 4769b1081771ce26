-- ===== src/Packet/PublishTrip.antt =====
-- PUBLISH (packet/mqtt_publish.cpp) through `serialize` and back.
use shan_mqtt_broker.Packet.PublishBytes.{flagged_read, id_of, IsTopicName, built}
use shan_mqtt_broker.Packet.PublishFlags.{flags_read, flags_of, FlagsRead}
use shan_mqtt_broker.Packet.Travels.{run_into, written-append, Travels}
use shan_mqtt_broker.Packet.Any.{decode_packet, serialize}
use shan_mqtt_broker.Packet.Any
use shan_mqtt_broker.Packet.Text.{encode_string}
use shan_mqtt_broker.Packet.Publish.{
  decode_publish, serialize_publish, make_publish, decode_flagged, header_len, Publish,
  has_packet_id,
}
use shan_mqtt_broker.Packet.FixedHeader.{serialize_fixed_header, check_flags, FixedHeader}
use shan_mqtt_broker.Base.{
  inr, inl, Bool-cases, ℕ, ◌+◌, ◌/◌, ◌%◌, ◌^◌, ◌<◌, ◌≡◌, refl, ◌∙◌, Bool, false, ◌&&◌, List, [],
  ◌∷◌, ◌++◌, Bytes, length, arith, ltb, ◌==◌, if◌then◌else◌, length-append, append_assoc,
  append-nil,
}
use shan_mqtt_broker.Outcome.{ok}
use shan_mqtt_broker.Wire.Decoder.{write, written, run_bytes, Write, write_uint16}

abbrev header_for : Bool → ℕ → Bool → Bytes → Bytes → FixedHeader
header_for dup qos retain name payload = record {
  packet_type = 3;
  flags = flags_of dup qos retain;
  remaining_length = header_len qos name + length payload;
}

decode-flagged :
    (dup : Bool) (qos : ℕ) (retain : Bool) (name payload : Bytes)
    → FlagsRead dup qos retain
    → decode_publish (header_for dup qos retain name payload)
      ≡ decode_flagged (header_for dup qos retain name payload) dup qos retain
unfolding decode_publish
decode-flagged dup qos retain name payload r = rw (r.dup_read, r.qos_read, r.retain_read) refl

-- The packet id and the payload, as they are written.
abbrev tail_writes : ℕ → ℕ → Bytes → List Write
tail_writes qos id payload =
    (if has_packet_id qos then write_uint16 id ∷ [] else []) ++ (write payload ∷ [])

tail_written :
    (qos id : ℕ) (payload rest : Bytes)
    → written (tail_writes qos id payload) ++ rest
      ≡ written (if has_packet_id qos then write_uint16 id ∷ [] else []) ++ (payload ++ rest)
tail_written qos id payload rest =
    rw
      (written-append (if has_packet_id qos then write_uint16 id ∷ [] else []) (write payload ∷ []))
      (rw (append_assoc, append-nil) refl)

length-tail_writes :
    (qos id : ℕ) (payload : Bytes)
    → length (written (tail_writes qos id payload))
      ≡ (if has_packet_id qos then 2 else 0) + length payload
length-tail_writes qos id payload = elim (Bool-cases (has_packet_id qos)) [
  | inl h ↦ rw (h, append-nil) (omega arith)
  | inr h ↦ rw (h, append-nil) (omega arith)
]

module _ (dup : Bool) (qos : ℕ) (retain : Bool) (name : Bytes) (id : ℕ) (payload : Bytes) where
  -- The packet that `make_publish` builds.
  abbrev pub publish_of : Publish
  publish_of =
      built (header_for dup qos retain name payload) dup qos retain name payload (id_of qos id)

  pub make-publish_of :
      qos < 3
      → header_len qos name + length payload < 2 ^ 21
      → make_publish dup qos retain name id payload ≡ ok publish_of
  unfolding make_publish check_flags
  make-publish_of q h =
      let fits : (length name + 2 + (if has_packet_id qos then 2 else 0)) % 2 ^ 32
          ≡ header_len qos name =
        omega arith in
      let a : (qos == 3) ≡ false = ground arith in
      let b : ltb 0x0fffffff (length payload + header_len qos name) ≡ false = ground arith in
      rw (a, fits, b) refl

  publish_serialized :
      (hw : List Write)
      → IsTopicName name
      → serialize_fixed_header (header_for dup qos retain name payload) ≡ ok hw
      → serialize (Any.publish publish_of)
        ≡ ok (
            hw
            ++ (write_uint16 (length name) ∷ (write name ∷ tail_writes qos (id_of qos id) payload)))
  unfolding serialize serialize_publish encode_string
  publish_serialized hw v e =
      let short : ltb 0xffff (length name) ≡ false = ground (arith, v.short) in rw (e, short) refl

  publish_decoded :
      (rest : Bytes)
      → qos < 3
      → (qos == 0 && dup) ≡ false
      → IsTopicName name
      → header_len qos name + length payload < 2 ^ 21
      → run_bytes (decode_publish (header_for dup qos retain name payload)) (
          length name / 256
          ∷ (length name % 256
              ∷ ((name ++ written (tail_writes qos (id_of qos id) payload)) ++ rest)))
        ≡ ok (publish_of, rest)
  publish_decoded rest q d v h =
      let twice : id_of qos (id_of qos id) ≡ id_of qos id = ground arith in
      rw
        (
          decode-flagged dup qos retain name payload (flags_read dup qos retain q),
          append_assoc,
          tail_written qos (id_of qos id) payload rest,
        )
        (flagged_read (header_for dup qos retain name payload) dup qos retain name payload rest
            (id_of qos id) q d v refl h
          ∙ rw twice refl)

  -- A PUBLISH with a QoS below 3, without DUP at QoS 0, with a topic name that clients may use and
  -- a remaining length below 2 ^ 21 is written so that the decoding constructor reads the same
  -- packet back, whatever bytes follow.
  pub publish-Travels :
      qos < 3
      → (qos == 0 && dup) ≡ false
      → IsTopicName name
      → header_len qos name + length payload < 2 ^ 21
      → Travels (Any.publish publish_of)
  unfolding decode_packet
  publish-Travels q d v h = record {
    body = write_uint16 (length name) ∷ (write name ∷ tail_writes qos (id_of qos id) payload);
    has_header = record {
      type_bound = omega arith;
      flags_bound = (flags_read dup qos retain q).in_bound;
      flags_checked = (flags_read dup qos retain q).checked;
      length_bound = h;
    };
    serialized = λ hw e. publish_serialized hw v e;
    body_length = omega (
      arith,
      length-append name (written (tail_writes qos (id_of qos id) payload)),
      length-tail_writes qos (id_of qos id) payload,
    );
    decoded = λ rest.
        run_into Any.publish (decode_publish (header_for dup qos retain name payload)) _
          (publish_decoded rest q d v h);
  }
