-- ===== src/Packet/Any.antt =====
-- A packet of any class: the switch of handler/mqtt_codec.cpp that decodes one, and the virtual
-- function `serialize`.
use shan_mqtt_broker.Base.{List, Option, none, some, ◌==◌, if◌then◌else◌}
use shan_mqtt_broker.Constants.PacketType
use shan_mqtt_broker.Outcome.{Result}
use shan_mqtt_broker.Wire.Decoder.{Decoder, ret, ◌>>=◌, Write}
use shan_mqtt_broker.Packet.FixedHeader.{FixedHeader}
use shan_mqtt_broker.Packet.Publish.{Publish, decode_publish, serialize_publish}
use shan_mqtt_broker.Packet.Connect.{Connect, decode_connect, serialize_connect}
use shan_mqtt_broker.Packet.Subscribe.{
  Subscribe, decode_subscribe, serialize_subscribe, Unsubscribe, decode_unsubscribe,
  serialize_unsubscribe,
}
use shan_mqtt_broker.Packet.Acks.{
  Ack, decode_puback, serialize_puback, decode_pubrec, serialize_pubrec, decode_pubrel,
  serialize_pubrel, decode_pubcomp, serialize_pubcomp, decode_unsuback, serialize_unsuback, Suback,
  decode_suback, serialize_suback, Connack, decode_connack, serialize_connack,
}
use shan_mqtt_broker.Packet.Pings.{
  decode_pingreq, serialize_pingreq, decode_pingresp, serialize_pingresp, decode_disconnect,
  serialize_disconnect,
}

-- A constructor for each class below `fixed_header`.
pub data Packet : Type 0 where
  connect : Connect → Packet
  connack : Connack → Packet
  publish : Publish → Packet
  puback pubrec pubrel pubcomp : Ack → Packet
  subscribe : Subscribe → Packet
  suback : Suback → Packet
  unsubscribe : Unsubscribe → Packet
  unsuback : Ack → Packet
  pingreq pingresp disconnect : FixedHeader → Packet

abbrev pub into : {A : Type 0} → (A → Packet) → Decoder A → Decoder (Option Packet)
into class d = d >>= λ a. ret (some (class a))

-- `switch (fh.type())` of `mqtt_codec::channel_read`. Types 0 and 15 have no case: `none` says that
-- the data stays the stream buffer.
unfoldable pub decode_packet : FixedHeader → Decoder (Option Packet)
decode_packet fh =
    let t = fh.packet_type in
    if t == PacketType.connect
    then into connect (decode_connect fh)
    else (if t == PacketType.connack
        then into connack (decode_connack fh)
        else (if t == PacketType.publish
            then into publish (decode_publish fh)
            else (if t == PacketType.puback
                then into puback (decode_puback fh)
                else (if t == PacketType.pubrec
                    then into pubrec (decode_pubrec fh)
                    else (if t == PacketType.pubrel
                        then into pubrel (decode_pubrel fh)
                        else (if t == PacketType.pubcomp
                            then into pubcomp (decode_pubcomp fh)
                            else (if t == PacketType.subscribe
                                then into subscribe (decode_subscribe fh)
                                else (if t == PacketType.suback
                                    then into suback (decode_suback fh)
                                    else (if t == PacketType.unsubscribe
                                        then into unsubscribe (decode_unsubscribe fh)
                                        else (if t == PacketType.unsuback
                                            then into unsuback (decode_unsuback fh)
                                            else (if t == PacketType.pingreq
                                                then into pingreq (decode_pingreq fh)
                                                else (if t == PacketType.pingresp
                                                    then into pingresp (decode_pingresp fh)
                                                    else (if t == PacketType.disconnect
                                                        then into disconnect (decode_disconnect fh)
                                                        else ret none)))))))))))))

-- The virtual function `serialize`.
unfoldable pub serialize : Packet → Result (List Write)
serialize (connect p) = serialize_connect p
serialize (connack p) = serialize_connack p
serialize (publish p) = serialize_publish p
serialize (puback p) = serialize_puback p
serialize (pubrec p) = serialize_pubrec p
serialize (pubrel p) = serialize_pubrel p
serialize (pubcomp p) = serialize_pubcomp p
serialize (subscribe p) = serialize_subscribe p
serialize (suback p) = serialize_suback p
serialize (unsubscribe p) = serialize_unsubscribe p
serialize (unsuback p) = serialize_unsuback p
serialize (pingreq p) = serialize_pingreq p
serialize (pingresp p) = serialize_pingresp p
serialize (disconnect p) = serialize_disconnect p

-- The members of the base class `fixed_header`.
abbrev pub header : Packet → FixedHeader
header (connect p) = p.fh
header (connack p) = p.fh
header (publish p) = p.fh
header (puback p) = p.fh
header (pubrec p) = p.fh
header (pubrel p) = p.fh
header (pubcomp p) = p.fh
header (subscribe p) = p.fh
header (suback p) = p.fh
header (unsubscribe p) = p.fh
header (unsuback p) = p.fh
header (pingreq p) = p
header (pingresp p) = p
header (disconnect p) = p
