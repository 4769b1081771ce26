-- ===== src/Handler/FirstPacket.antt =====
-- A channel whose first packet is no CONNECT (handler/packet_handler.cpp, player/mqtt_server.cpp).
use shan_mqtt_broker.Server.Publishing.{
  handle_publish, handle_puback, handle_pubrec, handle_pubrel, handle_pubcomp, agent, no_connect,
}
use shan_mqtt_broker.Server.Subscribing.{handle_subscribe, handle_unsubscribe}
use shan_mqtt_broker.Server.Leaving.{handle_pingreq, handle_disconnect}
use shan_mqtt_broker.Server.State.{Server, Env}
use shan_mqtt_broker.Handler.{handle_packet}
use shan_mqtt_broker.Base.{ℕ, Bool, true, false, ◌≡◌, refl, none}
use shan_mqtt_broker.Outcome.{Error, err}
use shan_mqtt_broker.Packet.Any.{
  Packet, connect, connack, publish, puback, pubrec, pubrel, pubcomp, subscribe, suback,
  unsubscribe, unsuback, pingreq, pingresp, disconnect,
}

abbrev pub is_connect : Packet → Bool
is_connect (connect p) = true
is_connect p = false

agent-none :
    (channel : ℕ) (s : Server) → s.param channel ≡ none → agent channel s ≡ (err no_connect, s)
unfolding agent
agent-none channel s n = rw (n, agent) refl

-- On a channel without a client every packet but CONNECT ends in an exception that leaves the whole
-- state, the calls on the network included, as it was.
pub first_packet_refused :
    (env : Env) (rounds channel : ℕ) (p : Packet) (s : Server)
    → s.param channel ≡ none
    → is_connect p ≡ false
    → (e : Error) × (handle_packet env rounds channel p s ≡ (err e, s))
unfolding handle_packet
first_packet_refused env rounds channel (connect p) s n h = cc
first_packet_refused env rounds channel (connack p) s n h = (_, refl)
first_packet_refused env rounds channel (publish p) s n h =
    (no_connect, unfold handle_publish in rw (agent-none channel s n) refl)
first_packet_refused env rounds channel (puback p) s n h =
    (no_connect, unfold handle_puback in rw (agent-none channel s n) refl)
first_packet_refused env rounds channel (pubrec p) s n h =
    (no_connect, unfold handle_pubrec in rw (agent-none channel s n) refl)
first_packet_refused env rounds channel (pubrel p) s n h =
    (no_connect, unfold handle_pubrel in rw (agent-none channel s n) refl)
first_packet_refused env rounds channel (pubcomp p) s n h =
    (no_connect, unfold handle_pubcomp in rw (agent-none channel s n) refl)
first_packet_refused env rounds channel (subscribe p) s n h =
    (no_connect, unfold handle_subscribe in rw (agent-none channel s n) refl)
first_packet_refused env rounds channel (suback p) s n h = (_, refl)
first_packet_refused env rounds channel (unsubscribe p) s n h =
    (no_connect, unfold handle_unsubscribe in rw (agent-none channel s n) refl)
first_packet_refused env rounds channel (unsuback p) s n h = (_, refl)
first_packet_refused env rounds channel (pingreq p) s n h =
    (no_connect, unfold handle_pingreq in rw (agent-none channel s n) refl)
first_packet_refused env rounds channel (pingresp p) s n h = (_, refl)
first_packet_refused env rounds channel (disconnect p) s n h =
    (no_connect, unfold handle_disconnect in rw (agent-none channel s n) refl)
