-- ===== src/Packet/Subscribe.antt =====
-- packet/mqtt_subscribe.cpp and packet/mqtt_unsubscribe.cpp.
use shan_mqtt_broker.Base.{
  ℕ, zero, suc, ◌+◌, ◌-◌, ◌%◌, ◌^◌, Bool, true, false, List, [], ◌∷◌, ◌++◌, Bytes, ltb, leb,
  is_empty, length, if◌then◌else◌,
}
use shan_mqtt_broker.Constants.PacketType
use shan_mqtt_broker.Constants.{qos_invalid}
use shan_mqtt_broker.Outcome
use shan_mqtt_broker.Outcome.{Error, mqtt_error, Result, ok, err}
use shan_mqtt_broker.Wire.Decoder.{
  Decoder, ret, stop, get_uint8, get_uint16, throw_if, ◌>>=◌, ◌>>◌, Write, write_uint8,
  write_uint16,
}
use shan_mqtt_broker.Topic.Filter.{is_topic_filter_valid}
use shan_mqtt_broker.Packet.FixedHeader.{FixedHeader, make_fixed_header, serialize_fixed_header}
use shan_mqtt_broker.Packet.Text.{decode_string, encode_string}

-- The vectors `_topic_filters`, `_max_qoses` and `_is_wild` run in parallel.
pub record Subscribe : Type 0 where
  pub fh : FixedHeader
  pub packet_id : ℕ
  pub topic_filters : List Bytes
  pub max_qoses : List ℕ
  pub is_wild : List Bool

abbrev empty_filter : Error
empty_filter = mqtt_error "malformed packet received. (empty topic filter)"

abbrev bad_qos : Error
bad_qos = mqtt_error "malformed packet. (SUBSCRIBE topic filter QoS)"

-- What follows a topic filter: its QoS byte, which is read for a valid filter only, and what the byte
-- takes off `remain`.
unfoldable pub decode_max_qos : Bool × Bool → Decoder (ℕ × Bool × ℕ)
decode_max_qos (true, is_wild_topic) = do
  max_qos ← get_uint8
  throw_if (leb qos_invalid max_qos) bad_qos
  ret (max_qos, is_wild_topic, 1)
decode_max_qos (false, is_wild_topic) = ret (0x80, false, 0)

-- The loop `while (remain > 0)`; `rounds` is fuel. `remain` is signed in the source, and a negative
-- one, which ends the loop as 0 does, is 0 here.
unfoldable pub decode_filters :
    ℕ → ℕ → List Bytes → List ℕ → List Bool → Decoder (List Bytes × List ℕ × List Bool)
unfolding decode_string decode_max_qos is_topic_filter_valid
decode_filters zero remain filters qoses wilds =
    if ltb 0 remain then stop else ret (filters, qoses, wilds)
decode_filters (suc rounds) remain filters qoses wilds =
    if ltb 0 remain
    then (do
      topic ← decode_string
      throw_if (is_empty topic) empty_filter
      (max_qos, is_wild_topic, qos_byte) ← decode_max_qos (is_topic_filter_valid topic)
      decode_filters rounds (remain - (length topic + 2) - qos_byte) (filters ++ topic ∷ [])
          (qoses ++ max_qos ∷ []) (wilds ++ is_wild_topic ∷ []))
    else ret (filters, qoses, wilds)

-- `mqtt_subscribe(const fixed_header&, util::streambuf_ptr)`. A round takes 3 at least off `remain`.
unfoldable pub decode_subscribe : FixedHeader → Decoder Subscribe
unfolding decode_filters
decode_subscribe fh = do
  packet_id ← get_uint16
  let remain = fh.remaining_length - 2
  (filters, qoses, wilds) ← decode_filters remain remain [] [] []
  throw_if (is_empty filters) (mqtt_error "A SUBSCRIBE with no topic filter was received.")
  ret (record {
    fh = fh;
    packet_id = packet_id;
    topic_filters = filters;
    max_qoses = qoses;
    is_wild = wilds;
  })

unfoldable pub make_subscribe : ℕ → Result Subscribe
unfolding make_fixed_header
make_subscribe packet_id = Outcome.◌>>=◌ (make_fixed_header PacketType.subscribe 2 2) λ fh.
    ok (record { fh = fh; packet_id = packet_id; topic_filters = []; max_qoses = []; is_wild = [] })

unfoldable pub add_topic_filter : Subscribe → Bytes → ℕ → Result Subscribe
add_topic_filter p topic_filter max_qos =
    Outcome.◌>>◌ (Outcome.throw_if (leb qos_invalid max_qos) bad_qos) (
      ok (record p {
        fh = record (p.fh) {
          remaining_length = (p.fh.remaining_length + (2 + length topic_filter) + 1) % 2 ^ 32;
        };
        topic_filters = p.topic_filters ++ topic_filter ∷ [];
        max_qoses = p.max_qoses ++ max_qos ∷ [];
      }))

-- The loop of `mqtt_subscribe::serialize` over the filters and their QoS.
unfoldable pub encode_filters : List Bytes → List ℕ → Result (List Write)
unfolding encode_string
encode_filters [] qoses = ok []
encode_filters (f ∷ fs) [] = ok []
encode_filters (f ∷ fs) (q ∷ qoses) =
    Outcome.◌>>=◌ (encode_string f)
      λ topic. Outcome.◌>>=◌ (encode_filters fs qoses) λ rest. ok (topic ++ (write_uint8 q ∷ rest))

unfoldable pub serialize_subscribe : Subscribe → Result (List Write)
unfolding serialize_fixed_header encode_filters
serialize_subscribe p = Outcome.◌>>=◌ (serialize_fixed_header p.fh) λ header.
    Outcome.◌>>=◌ (encode_filters p.topic_filters p.max_qoses)
      λ filters. ok (header ++ (write_uint16 p.packet_id ∷ filters))

pub record Unsubscribe : Type 0 where
  pub fh : FixedHeader
  pub packet_id : ℕ
  pub topic_filters : List Bytes
  pub is_wild : List Bool

-- The loop of `mqtt_unsubscribe`'s constructor; the filter's validity is not looked at.
unfoldable pub decode_unsubscribe_filters :
    ℕ → ℕ → List Bytes → List Bool → Decoder (List Bytes × List Bool)
unfolding decode_string is_topic_filter_valid
decode_unsubscribe_filters zero remain filters wilds =
    if ltb 0 remain then stop else ret (filters, wilds)
decode_unsubscribe_filters (suc rounds) remain filters wilds =
    if ltb 0 remain
    then (do
      topic ← decode_string
      throw_if (is_empty topic) empty_filter
      decode_unsubscribe_filters rounds (remain - (length topic + 2)) (filters ++ topic ∷ [])
          (wilds ++ (is_topic_filter_valid topic).1 ∷ []))
    else ret (filters, wilds)

unfoldable pub decode_unsubscribe : FixedHeader → Decoder Unsubscribe
unfolding decode_unsubscribe_filters
decode_unsubscribe fh = do
  packet_id ← get_uint16
  let remain = fh.remaining_length - 2
  (filters, wilds) ← decode_unsubscribe_filters remain remain [] []
  throw_if (is_empty filters) (mqtt_error "A UNSUBSCRIBE with no topic filter was received.")
  ret (record { fh = fh; packet_id = packet_id; topic_filters = filters; is_wild = wilds })

unfoldable pub make_unsubscribe : ℕ → Result Unsubscribe
unfolding make_fixed_header
make_unsubscribe packet_id =
    Outcome.◌>>=◌ (make_fixed_header PacketType.unsubscribe 2 2)
      λ fh. ok (record { fh = fh; packet_id = packet_id; topic_filters = []; is_wild = [] })

unfoldable pub add_unsubscribe_filter : Unsubscribe → Bytes → Unsubscribe
add_unsubscribe_filter p topic_filter = record p {
  fh = record (p.fh) {
    remaining_length = (p.fh.remaining_length + (2 + length topic_filter)) % 2 ^ 32;
  };
  topic_filters = p.topic_filters ++ topic_filter ∷ [];
}

unfoldable pub serialize_unsubscribe : Unsubscribe → Result (List Write)
serialize_unsubscribe p = err (mqtt_error "broker does not send a UNSUBSCRIBE packet.")
