-- ===== src/Packet/SubscribeTrip.antt =====
-- SUBSCRIBE (packet/mqtt_subscribe.cpp), built filter by filter, through `serialize` and back.
use shan_mqtt_broker.Base.{
  ℕ, zero, suc, ◌+◌, ◌-◌, ◌/◌, ◌%◌, ◌^◌, ◌≤◌, ◌<◌, ◌≡◌, refl, ap, ◌∙◌, Bool, true, false, All, List,
  [], ◌∷◌, ◌++◌, map, Bytes, length, ltb, leb, is_empty, some, append_assoc, append-nil, arith,
}
use shan_mqtt_broker.Outcome
use shan_mqtt_broker.Outcome.{Result, ok}
use shan_mqtt_broker.Wire.Decoder.{
  run_bytes, written, Write, write, write_uint8, write_uint16, ◌>>=◌,
}
use shan_mqtt_broker.Wire.Bind.{run_ok, run_passed}
use shan_mqtt_broker.Topic.Filter.{is_topic_filter_valid}
use shan_mqtt_broker.Packet.Text.{encode_string, decode_string}
use shan_mqtt_broker.Packet.AckTrip.{uint16_bytes, header_of, header_of-IsHeader}
use shan_mqtt_broker.Packet.HeaderTrip.{decode-serialize_header}
use shan_mqtt_broker.Packet.Travels.{run_into, written-append}
use shan_mqtt_broker.Packet.FixedHeader.{decode_fixed_header, check_flags}
use shan_mqtt_broker.Packet.Any
use shan_mqtt_broker.Packet.Any.{decode_packet, serialize}
use shan_mqtt_broker.Packet.Utf8.{Utf8, string_read}
use shan_mqtt_broker.Packet.Subscribe.{
  Subscribe, decode_max_qos, decode_filters, decode_subscribe, make_subscribe, add_topic_filter,
  encode_filters, serialize_subscribe,
}

-- A filter with the QoS that is asked for.
abbrev pub Ask : Type 0
Ask = Bytes × ℕ

pub record IsAsk (a : Ask) : Type 0 where
  pub text : Utf8 a.0
  pub short : length a.0 ≤ 0xffff
  pub filled : is_empty a.0 ≡ false
  pub valid : (is_topic_filter_valid a.0).0 ≡ true
  pub qos_bound : a.1 < 3

abbrev pub filters_of : List Ask → List Bytes
filters_of asks = map (λ a. a.0) asks

abbrev pub qoses_of : List Ask → List ℕ
qoses_of asks = map (λ a. a.1) asks

abbrev pub wilds_of : List Ask → List Bool
wilds_of asks = map (λ a. (is_topic_filter_valid a.0).1) asks

abbrev pub asked_length : List Ask → ℕ
asked_length [] = 0
asked_length (a ∷ asks) = length a.0 + 3 + asked_length asks

abbrev pub asked_writes : List Ask → List Write
asked_writes [] = []
asked_writes (a ∷ asks) =
    write_uint16 (length a.0) ∷ (write a.0 ∷ (write_uint8 a.1 ∷ asked_writes asks))

-- The QoS behind a valid filter.
qos_read :
    (v : Bool × Bool) (qos : ℕ) (rest : Bytes)
    → v.0 ≡ true
    → qos < 3
    → run_bytes (decode_max_qos v) (qos ∷ rest) ≡ ok ((qos, v.1, 1), rest)
unfolding decode_max_qos
qos_read (true, wild) qos rest h l =
    let good : leb 3 qos ≡ false = ground arith in run_passed (leb 3 qos) _ _ rest good
qos_read (false, wild) qos rest h l = absurd (ground (arith, h))

-- One round of the loop, on a filter that is as it should be.
one_read :
    (rounds remain : ℕ) (a : Ask) (fs : List Bytes) (qs : List ℕ) (ws : List Bool) (rest : Bytes)
    → IsAsk a
    → run_bytes
        (decode_filters (suc rounds) (length a.0 + 3 + remain) fs qs ws)
        (length a.0 / 256 ∷ (length a.0 % 256 ∷ (a.0 ++ (a.1 ∷ rest))))
      ≡ run_bytes
          (decode_filters rounds remain
            (fs ++ a.0 ∷ [])
            (qs ++ a.1 ∷ [])
            (ws ++ (is_topic_filter_valid a.0).1 ∷ []))
          rest
unfolding decode_filters decode_max_qos
one_read rounds remain a fs qs ws rest h =
    let positive : ltb 0 (length a.0 + 3 + remain) ≡ true = ground arith in
    let left : length a.0 + 3 + remain - (length a.0 + 2) - 1 ≡ remain = omega arith in
    rw positive (
      run_ok decode_string _ (length a.0 / 256 ∷ (length a.0 % 256 ∷ (a.0 ++ (a.1 ∷ rest))))
        (string_read a.0 (a.1 ∷ rest) h.text h.short)
      ∙ run_passed (is_empty a.0) _ _ (a.1 ∷ rest) h.filled
      ∙ run_ok (decode_max_qos (is_topic_filter_valid a.0)) _ (a.1 ∷ rest)
          (qos_read (is_topic_filter_valid a.0) a.1 rest h.valid h.qos_bound)
      ∙ ap
          (λ n.
            run_bytes
              (decode_filters rounds n (fs ++ a.0 ∷ []) (qs ++ a.1 ∷ [])
                (ws ++ (is_topic_filter_valid a.0).1 ∷ []))
              rest)
          left)

filters_read :
    (asks : List Ask) (rounds : ℕ) (fs : List Bytes) (qs : List ℕ) (ws : List Bool) (rest : Bytes)
    → All IsAsk asks
    → asked_length asks ≤ rounds
    → run_bytes
        (decode_filters rounds (asked_length asks) fs qs ws)
        (written (asked_writes asks) ++ rest)
      ≡ ok ((fs ++ filters_of asks, qs ++ qoses_of asks, ws ++ wilds_of asks), rest)
unfolding decode_filters
filters_read [] zero fs qs ws rest h l = rw (append-nil, append-nil, append-nil) refl
filters_read [] (suc rounds) fs qs ws rest h l = rw (append-nil, append-nil, append-nil) refl
filters_read (a ∷ asks) zero fs qs ws rest h l = absurd (omega (arith, l))
filters_read (a ∷ asks) (suc rounds) fs qs ws rest h l = rw append_assoc (
    one_read rounds (asked_length asks) a fs qs ws (written (asked_writes asks) ++ rest) h.0
    ∙ filters_read asks rounds (fs ++ a.0 ∷ []) (qs ++ a.1 ∷ [])
        (ws ++ (is_topic_filter_valid a.0).1 ∷ []) rest h.1 (omega (arith, l))
    ∙ rw (append_assoc, append_assoc, append_assoc) refl)

filters_written :
    (asks : List Ask)
    → All IsAsk asks
    → encode_filters (filters_of asks) (qoses_of asks) ≡ ok (asked_writes asks)
unfolding encode_filters encode_string
filters_written [] h = refl
filters_written (a ∷ asks) h =
    let short : ltb 0xffff (length a.0) ≡ false = ground (arith, h.0.short) in
    rw (short, filters_written asks h.1) refl

-- How a client fills its packet.
abbrev pub add_all : Subscribe → List Ask → Result Subscribe
add_all p [] = ok p
add_all p (a ∷ asks) = Outcome.◌>>=◌ (add_topic_filter p a.0 a.1) λ q. add_all q asks

-- The SUBSCRIBE that comes of it.
abbrev pub filled : Subscribe → List Ask → Subscribe
filled p asks = record p {
  fh = record (p.fh) { remaining_length = p.fh.remaining_length + asked_length asks };
  topic_filters = p.topic_filters ++ filters_of asks;
  max_qoses = p.max_qoses ++ qoses_of asks;
}

filled-filled :
    (p : Subscribe) (a : Ask) (asks : List Ask)
    → filled (filled p (a ∷ [])) asks ≡ filled p (a ∷ asks)
filled-filled p a asks =
    let sum : p.fh.remaining_length + (length a.0 + 3 + 0) + asked_length asks
        ≡ p.fh.remaining_length + (length a.0 + 3 + asked_length asks) =
      omega arith in
    rw (append_assoc, append_assoc, sum) refl

one_added :
    (p : Subscribe) (a : Ask)
    → a.1 < 3
    → p.fh.remaining_length + (length a.0 + 3) < 2 ^ 21
    → add_topic_filter p a.0 a.1 ≡ ok (filled p (a ∷ []))
unfolding add_topic_filter
one_added p a q l =
    let good : leb 3 a.1 ≡ false = ground arith in
    let sum : (p.fh.remaining_length + (2 + length a.0) + 1) % 2 ^ 32
        ≡ p.fh.remaining_length + (length a.0 + 3 + 0) =
      omega (arith, l) in
    rw (good, sum) refl

add_all-filled :
    (asks : List Ask) (p : Subscribe)
    → All IsAsk asks
    → p.fh.remaining_length + asked_length asks < 2 ^ 21
    → add_all p asks ≡ ok (filled p asks)
add_all-filled [] p h l =
    let sum : p.fh.remaining_length + 0 ≡ p.fh.remaining_length = omega arith in
    rw (append-nil, append-nil, sum) refl
add_all-filled (a ∷ asks) p h l = rw (one_added p a h.0.qos_bound (omega (arith, l))) (
    add_all-filled asks (filled p (a ∷ [])) h.1 (omega (arith, l)) ∙ ap ok (filled-filled p a asks))

-- The empty SUBSCRIBE of `make_subscribe`.
abbrev empty_subscribe : ℕ → Subscribe
empty_subscribe id = record {
  fh = header_of 8 2 2;
  packet_id = id;
  topic_filters = [];
  max_qoses = [];
  is_wild = [];
}

-- What is read of a SUBSCRIBE: the packet itself, and which of its filters have wildcards, which the
-- encoding side does not keep.
abbrev pub marked : Subscribe → List Ask → Subscribe
marked p asks = record p { is_wild = wilds_of asks }

body_read :
    (id : ℕ) (a : Ask) (asks : List Ask) (rest : Bytes)
    → All IsAsk (a ∷ asks)
    → run_bytes
        (decode_subscribe (header_of 8 2 (2 + asked_length (a ∷ asks))))
        (id / 256 ∷ (id % 256 ∷ (written (asked_writes (a ∷ asks)) ++ rest)))
      ≡ ok (marked (filled (empty_subscribe id) (a ∷ asks)) (a ∷ asks), rest)
unfolding decode_subscribe
body_read id a asks rest h =
    let n = asked_length (a ∷ asks) in
    let count : 2 + n - 2 ≡ n = omega arith in
    rw count (
      run_ok (decode_filters n n [] [] []) _ (written (asked_writes (a ∷ asks)) ++ rest)
        (filters_read (a ∷ asks) n [] [] [] rest h (omega arith))
      ∙ ap
          (λ i. ok (
            record (marked (filled (empty_subscribe id) (a ∷ asks)) (a ∷ asks)) { packet_id = i },
            rest,
          ))
          (uint16_bytes id))

-- A SUBSCRIBE that is made with any packet id and gets one or more valid filters of well-formed UTF-8
-- of at most 65535 bytes, with a QoS below 3 each and a remaining length below 2 ^ 21 in all, is
-- written so that fixed header and decoding constructor read the same packet back, whatever bytes
-- follow, with the wildcards of its filters marked.
pub subscribe_round_trip :
    (id : ℕ) (a : Ask) (asks : List Ask) (rest : Bytes)
    → All IsAsk (a ∷ asks)
    → 2 + asked_length (a ∷ asks) < 2 ^ 21
    → (p : Subscribe) × (Outcome.◌>>=◌ (make_subscribe id) (λ q. add_all q (a ∷ asks)) ≡ ok p)
      × (ws : List Write) × (serialize (Any.subscribe p) ≡ ok ws)
      × (run_bytes (decode_fixed_header >>= decode_packet) (written ws ++ rest)
          ≡ ok (some (Any.subscribe (marked p (a ∷ asks))), rest))
unfolding make_subscribe check_flags serialize serialize_subscribe decode_packet
subscribe_round_trip id a asks rest h l =
    let p = filled (empty_subscribe id) (a ∷ asks) in
    let body = write_uint16 id ∷ asked_writes (a ∷ asks) in
    let (hw, e, d) =
      decode-serialize_header p.fh (written body ++ rest)
        (header_of-IsHeader 8 2 (2 + asked_length (a ∷ asks)) (omega arith) (omega arith) refl l) in
    (
      p,
      add_all-filled (a ∷ asks) (empty_subscribe id) h l,
      hw ++ body,
      rw (e, filters_written (a ∷ asks) h) refl,
      rw (written-append hw body, append_assoc)
          (run_ok decode_fixed_header decode_packet (written hw ++ (written body ++ rest)) d
            ∙ run_into Any.subscribe (decode_subscribe p.fh) (written body ++ rest)
                (body_read id a asks rest h)),
    )
