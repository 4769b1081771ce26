-- ===== src/Packet/Pings.antt =====
-- The packets that are a fixed header and nothing else: packet/mqtt_pingreq.cpp, mqtt_pingresp.cpp,
-- mqtt_disconnect.cpp.
use shan_mqtt_broker.Base.{List}
use shan_mqtt_broker.Constants.PacketType
use shan_mqtt_broker.Outcome.{Result}
use shan_mqtt_broker.Wire.Decoder.{Decoder, ret, Write}
use shan_mqtt_broker.Packet.FixedHeader.{FixedHeader, make_fixed_header, serialize_fixed_header}

unfoldable pub decode_pingreq : FixedHeader → Decoder FixedHeader
decode_pingreq fh = ret fh

unfoldable pub make_pingreq : Result FixedHeader
unfolding make_fixed_header
make_pingreq = make_fixed_header PacketType.pingreq 0 0

unfoldable pub serialize_pingreq : FixedHeader → Result (List Write)
unfolding serialize_fixed_header
serialize_pingreq = serialize_fixed_header

unfoldable pub decode_pingresp : FixedHeader → Decoder FixedHeader
decode_pingresp fh = ret fh

unfoldable pub make_pingresp : Result FixedHeader
unfolding make_fixed_header
make_pingresp = make_fixed_header PacketType.pingresp 0 0

unfoldable pub serialize_pingresp : FixedHeader → Result (List Write)
unfolding serialize_fixed_header
serialize_pingresp = serialize_fixed_header

unfoldable pub decode_disconnect : FixedHeader → Decoder FixedHeader
decode_disconnect fh = ret fh

unfoldable pub make_disconnect : Result FixedHeader
unfolding make_fixed_header
make_disconnect = make_fixed_header PacketType.disconnect 0 0

unfoldable pub serialize_disconnect : FixedHeader → Result (List Write)
unfolding serialize_fixed_header
serialize_disconnect = serialize_fixed_header
