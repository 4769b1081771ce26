-- ===== src/Handler/Refused.antt =====
-- What becomes of the channel of a refused CONNECT: `handle_connect` of player/mqtt_server.cpp, then
-- `packet_handler::channel_written`.
use shan_mqtt_broker.Base.{
  ℕ, ◌≡◌, ◌≢◌, false, none, some, [], ◌∷◌, ◌++◌, is_empty, ap, append_assoc,
}
use shan_mqtt_broker.Outcome.{ok}
use shan_mqtt_broker.Packet.Connect.{Connect}
use shan_mqtt_broker.Packet.Any
use shan_mqtt_broker.Server.State.{Env, Server, write, close}
use shan_mqtt_broker.Server.ConnectRules.{
  expected_code, closes, connack_of, with_output, connect_refused,
}
use shan_mqtt_broker.Handler.{handle_packet, channel_read, channel_written}
use shan_mqtt_broker.Handler.Events.{read, written, on_event}

-- On a channel without a client, a CONNECT that has a client identifier and that the rules refuse gets
-- its CONNACK, and when the CONNACK has been written the channel is closed; no client, session or topic
-- changes.
pub refused_then_closed :
    (env : Env) (rounds channel : ℕ) (p : Connect) (s : Server)
    → s.param channel ≡ none
    → is_empty p.client_id ≡ false
    → expected_code env.cfg p ≢ 0
    → on_event env (written channel) (on_event env (read rounds channel (some (Any.connect p))) s).1
      ≡ (
        ok tt,
        with_output s (
            (closes env channel p s
              ++ write channel (Any.connack (connack_of false (expected_code env.cfg p))) ∷ [])
            ++ close channel ∷ []),
      )
unfolding channel_read handle_packet channel_written
refused_then_closed env rounds channel p s free named refused =
    rw (connect_refused env rounds channel p s named refused, free)
      (ap (λ l. (ok tt, record s { output = l })) (append_assoc s.output _ (close channel ∷ [])))
