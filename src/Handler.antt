-- ===== src/Handler.antt =====
-- handler/packet_handler.cpp: packets and channel events on their way to the server.
pub mod FirstPacket
pub mod Events
pub mod Reachable
pub mod Messages
pub mod Output
pub mod Refused
pub mod Answering
use shan_mqtt_broker.Base.{ℕ, not, Option, none, some, is_some, ◌||◌, ◌==◌}
use shan_mqtt_broker.Constants.{id_no_connect, id_client_idle, id_client_disconnected}
use shan_mqtt_broker.Outcome.{Error, mqtt_error, runtime_error}
use shan_mqtt_broker.Packet.Any.{
  Packet, connect, connack, publish, puback, pubrec, pubrel, pubcomp, subscribe, suback,
  unsubscribe, unsuback, pingreq, pingresp, disconnect,
}
use shan_mqtt_broker.Server.State.{Env, close, M, raise, ◌>>=◌, skip, when, get, emit}
use shan_mqtt_broker.Server.Connecting.{handle_connect}
use shan_mqtt_broker.Server.Publishing.{
  handle_publish, handle_puback, handle_pubrec, handle_pubrel, handle_pubcomp,
}
use shan_mqtt_broker.Server.Subscribing.{handle_subscribe, handle_unsubscribe}
use shan_mqtt_broker.Server.Leaving.{handle_pingreq, handle_disconnect, handle_channel_disconnected}

-- The switch of `packet_handler::channel_read`; `rounds` is the fuel of `handle_connect`.
unfoldable pub handle_packet : Env → ℕ → ℕ → Packet → M (Unit {0})
handle_packet env rounds channel (connect p) = handle_connect env rounds channel p
handle_packet env rounds channel (connack p) = raise (mqtt_error "CONNACK packet was received.")
handle_packet env rounds channel (publish p) = handle_publish channel p
handle_packet env rounds channel (puback p) = handle_puback channel p
handle_packet env rounds channel (pubrec p) = handle_pubrec channel p
handle_packet env rounds channel (pubrel p) = handle_pubrel channel p
handle_packet env rounds channel (pubcomp p) = handle_pubcomp channel p
handle_packet env rounds channel (subscribe p) = handle_subscribe channel p
handle_packet env rounds channel (suback p) = raise (mqtt_error "SUBACK packet was received.")
handle_packet env rounds channel (unsubscribe p) = handle_unsubscribe channel p
handle_packet env rounds channel (unsuback p) = raise (mqtt_error "UNSUBACK packet was received.")
handle_packet env rounds channel (pingreq p) = handle_pingreq channel
handle_packet env rounds channel (pingresp p) = raise (mqtt_error "PINGRESP packet was received.")
handle_packet env rounds channel (disconnect p) = handle_disconnect channel

-- `packet_handler::channel_read`; `none` is an object that is no packet.
unfoldable pub channel_read : Env → ℕ → ℕ → Option Packet → M (Unit {0})
unfolding handle_packet
channel_read env rounds channel none =
    raise (runtime_error "the parameter of channel_read() is not a mqtt packet object.")
channel_read env rounds channel (some p) = handle_packet env rounds channel p

-- The functions of `packet_handler` that are empty.
abbrev pub channel_created : ℕ → M (Unit {0})
channel_created channel = skip

abbrev pub channel_connected : ℕ → M (Unit {0})
channel_connected channel = skip

abbrev pub channel_rdbuf_empty : ℕ → M (Unit {0})
channel_rdbuf_empty channel = skip

abbrev pub channel_write : ℕ → Option Packet → M (Unit {0})
channel_write channel data_ptr = skip

-- `packet_handler::exception_caught`
unfoldable pub exception_caught : ℕ → Error → M (Unit {0})
exception_caught channel e = emit (close channel)

-- `packet_handler::channel_written`
unfoldable pub channel_written : ℕ → M (Unit {0})
channel_written channel = do s ← get; when (not (is_some (s.param channel))) (emit (close channel))

-- `packet_handler::channel_disconnected`
unfoldable pub channel_disconnected : ℕ → M (Unit {0})
channel_disconnected channel = handle_channel_disconnected channel

-- `packet_handler::user_event`, on the timer that ran out
unfoldable pub user_event : ℕ → ℕ → M (Unit {0})
user_event channel id =
    when (id == id_no_connect || (id == id_client_idle || id == id_client_disconnected))
      (emit (close channel))
