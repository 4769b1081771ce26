-- ===== src/Tests/OnCodec.antt =====
-- The theorems on the codec, on the byte queue.
use shan_mqtt_broker.Base.{◌≢◌, ◌≡◌, refl, true, false, [], ◌∷◌, Bytes, arith}
use shan_mqtt_broker.Outcome.{stuck, ok}
use shan_mqtt_broker.Packet.FixedHeader.{
  decode_fixed_header, check_flags, decode_remaining_length, decode_length_loop,
}
use shan_mqtt_broker.Packet.PublishTrip.{publish_of, publish-Travels}
use shan_mqtt_broker.Packet.Any
use shan_mqtt_broker.Codec.{codec_channel_read, codec_channel_write, packet, buffer}
use shan_mqtt_broker.Codec.RoundTrip.{channel_read-channel_write}
use shan_mqtt_broker.Codec.Total.{channel_read_returns}
use shan_mqtt_broker.Codec.Typed.{Passes, channel_read_typed}
use shan_mqtt_broker.Codec.Partial.{body_missing, header_cut_passed_on}
use shan_mqtt_broker.Tests.ByteQueue.{byte_queue, Queue}
use shan_mqtt_broker.Tests.World.{name_tu}
use shan_mqtt_broker.Tests.OnPackets.{name_tu-IsTopicName}

-- A PUBLISH of five bytes behind its header, of which three are there.
abbrev part_of_publish : Bytes
part_of_publish = 0x30 ∷ (5 ∷ (0 ∷ (1 ∷ (b't' ∷ []))))

abbrev cut_header : Bytes
cut_header = 0x30 ∷ (0x80 ∷ (0xff ∷ []))

channel_read-channel_write_example :
    (out left : Queue) × (codec_channel_write byte_queue
        ([], [])
        (packet (Any.publish (publish_of false 1 false name_tu 5 (b'x' ∷ []))))
      ≡ ok (buffer out))
    × (codec_channel_read byte_queue (buffer out)
        ≡ ok (record {
          passed = packet (Any.publish (publish_of false 1 false name_tu 5 (b'x' ∷ [])));
          left = left;
          is_done = false;
        }))
    × (left.0 ≡ [])
channel_read-channel_write_example =
    channel_read-channel_write byte_queue
      (Any.publish (publish_of false 1 false name_tu 5 (b'x' ∷ [])))
      (publish-Travels false 1 false name_tu 5 (b'x' ∷ []) (omega arith) refl name_tu-IsTopicName
        (omega arith))
      ([], []) refl

body_missing_example :
    (left : Queue) × (codec_channel_read byte_queue (buffer (part_of_publish, []))
      ≡ ok (record { passed = buffer left; left = left; is_done = true }))
    × (left.0 ≡ part_of_publish)
unfolding decode_fixed_header check_flags decode_remaining_length decode_length_loop
body_missing_example =
    body_missing byte_queue (part_of_publish, []) part_of_publish
      (record { packet_type = 3; flags = 0; remaining_length = 5 }) (0 ∷ (1 ∷ (b't' ∷ []))) refl
      refl (omega arith)

header_cut_passed_on_example :
    (left : Queue) × (codec_channel_read byte_queue (buffer (cut_header, []))
      ≡ ok (record { passed = buffer left; left = left; is_done = false }))
    × (left.0 ≡ cut_header)
unfolding check_flags
header_cut_passed_on_example =
    header_cut_passed_on byte_queue (cut_header, []) 0x30 (0x80 ∷ (0xff ∷ [])) refl refl
      ((omega arith, omega arith), ((omega arith, omega arith), tt)) (omega arith) (omega arith)

channel_read_returns_example : codec_channel_read byte_queue (buffer (part_of_publish, [])) ≢ stuck
channel_read_returns_example = channel_read_returns byte_queue (buffer (part_of_publish, []))

channel_read_typed_example :
    Passes byte_queue (codec_channel_read byte_queue (buffer (0xe0 ∷ (0 ∷ []), [])))
channel_read_typed_example = channel_read_typed byte_queue (buffer (0xe0 ∷ (0 ∷ []), []))
