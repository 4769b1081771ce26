-- ===== src/Tests/OnPackets.antt =====
-- The theorems on encodings and packets, on concrete ones.
use shan_mqtt_broker.Base.{
  ◌<◌, ◌⊎◌, ◌≤◌, ◌≡◌, refl, true, false, List, [], ◌∷◌, ◌++◌, Bytes, some, arith,
}
use shan_mqtt_broker.Outcome.{ok, err, mqtt_error}
use shan_mqtt_broker.Wire.Decoder
use shan_mqtt_broker.Packet.FixedHeader.{
  encode_remaining_length, decode_remaining_length, decode_fixed_header, malformed_length,
}
use shan_mqtt_broker.Packet.Length.{long_length_refused}
use shan_mqtt_broker.Packet.Text.{encode_string, decode_string}
use shan_mqtt_broker.Packet.Utf8.{Utf8, nil, ascii, two, decode-encode_string}
use shan_mqtt_broker.Packet.Publish.{set_dup}
use shan_mqtt_broker.Packet.PublishBytes.{IsTopicName}
use shan_mqtt_broker.Packet.PublishTrip.{publish_of, publish-Travels}
use shan_mqtt_broker.Packet.AckTrip.{suback_of, suback-Travels}
use shan_mqtt_broker.Packet.Any.{decode_packet, serialize}
use shan_mqtt_broker.Packet.Any
use shan_mqtt_broker.Outcome
use shan_mqtt_broker.Packet.Subscribe.{Subscribe, make_subscribe}
use shan_mqtt_broker.Packet.SubscribeTrip.{Ask, IsAsk, add_all, marked, subscribe_round_trip}
use shan_mqtt_broker.Topic.Filter.{is_topic_filter_valid}
use shan_mqtt_broker.Packet.Travels.{Travels}
use shan_mqtt_broker.Packet.Resent.{resent_without_dup}
use shan_mqtt_broker.Wire.Decoder.{Write, run_bytes, written}
use shan_mqtt_broker.Tests.World.{name_tu}

abbrev rest : Bytes
rest = 9 ∷ []

-- "t" and U+00E9
abbrev text : Bytes
text = b't' ∷ (0xc3 ∷ (0xa9 ∷ []))

abbrev text-Utf8 : Utf8 text
text-Utf8 =
    ascii (omega arith) (omega arith)
      (two (omega arith) (omega arith) (omega arith, omega arith) nil)

abbrev name-Utf8 : Utf8 name_tu
name-Utf8 =
    ascii (omega arith) (omega arith)
      (ascii (omega arith) (omega arith) (ascii (omega arith) (omega arith) nil))

abbrev pub name_tu-IsTopicName : IsTopicName name_tu
name_tu-IsTopicName = record {
  text = name-Utf8;
  short = omega arith;
  filled = refl;
  no_dollar = refl;
  no_wildcard = refl;
}

long_length_refused_example :
    ((2097152 ≤ 0x0FFFFFFF)
      × (ws : List Write) × (encode_remaining_length 2097152 ≡ ok ws)
      × (run_bytes decode_remaining_length (written ws ++ rest) ≡ err malformed_length))
    ⊎ ((0x0FFFFFFF < 2097152)
        × (encode_remaining_length 2097152 ≡ err (mqtt_error "too big remaining length.")))
long_length_refused_example = long_length_refused 2097152 rest (omega arith)

decode-encode_string_example :
    (ws : List Write) × (encode_string text ≡ ok ws)
    × (run_bytes decode_string (written ws ++ rest) ≡ ok (text, rest))
decode-encode_string_example = decode-encode_string text rest text-Utf8 (omega arith)

publish-Travels_example : Travels (Any.publish (publish_of false 1 true name_tu 5 rest))
publish-Travels_example =
    publish-Travels false 1 true name_tu 5 rest (omega arith) refl name_tu-IsTopicName (omega arith)

suback-Travels_example : Travels (Any.suback (suback_of 5 (1 ∷ (0x80 ∷ []))))
suback-Travels_example = suback-Travels 5 (1 ∷ (0x80 ∷ [])) (refl, (refl, tt)) (omega arith)

resent_without_dup_example :
    (ws : List Write) × (serialize
        (Any.publish (set_dup true (publish_of false 1 false name_tu 5 rest)))
      ≡ ok ws)
    × (run_bytes (Decoder.◌>>=◌ decode_fixed_header decode_packet) (written ws ++ rest)
        ≡ ok (some (Any.publish (publish_of false 1 false name_tu 5 rest)), rest))
resent_without_dup_example =
    resent_without_dup 1 false name_tu 5 rest rest (omega arith) name_tu-IsTopicName (omega arith)

-- "t/u" with QoS 1
abbrev plain_ask : Ask
plain_ask = (name_tu, 1)

-- "+" with QoS 0
abbrev wild_ask : Ask
wild_ask = (b'+' ∷ [], 0)

plain_ask-IsAsk : IsAsk plain_ask
unfolding is_topic_filter_valid
plain_ask-IsAsk = record {
  text = name-Utf8;
  short = omega arith;
  filled = refl;
  valid = refl;
  qos_bound = omega arith;
}

wild_ask-IsAsk : IsAsk wild_ask
unfolding is_topic_filter_valid
wild_ask-IsAsk = record {
  text = ascii (omega arith) (omega arith) nil;
  short = omega arith;
  filled = refl;
  valid = refl;
  qos_bound = omega arith;
}

subscribe_round_trip_example :
    (p : Subscribe) × (Outcome.◌>>=◌
        (make_subscribe 5)
        (λ q. add_all q (plain_ask ∷ (wild_ask ∷ [])))
      ≡ ok p)
    × (ws : List Write) × (serialize (Any.subscribe p) ≡ ok ws)
    × (run_bytes (Decoder.◌>>=◌ decode_fixed_header decode_packet) (written ws ++ rest)
        ≡ ok (some (Any.subscribe (marked p (plain_ask ∷ (wild_ask ∷ [])))), rest))
subscribe_round_trip_example =
    subscribe_round_trip 5 plain_ask (wild_ask ∷ []) rest (plain_ask-IsAsk, (wild_ask-IsAsk, tt))
      (omega arith)
