-- ===== src/Handler/Events.antt =====
-- The events of the channels as packet_handler.cpp sees them, and what every handler keeps.
use shan_mqtt_broker.Base.{ℕ, Bool, Option, none, some, is_some, not, ◌||◌, ◌==◌}
use shan_mqtt_broker.Constants.{id_no_connect, id_client_idle, id_client_disconnected}
use shan_mqtt_broker.Outcome.{Error}
use shan_mqtt_broker.Packet.Any.{
  Packet, connect, connack, publish, puback, pubrec, pubrel, pubcomp, subscribe, suback,
  unsubscribe, unsuback, pingreq, pingresp, disconnect,
}
use shan_mqtt_broker.Server.State.{Env, Server, M}
use shan_mqtt_broker.Server.Keeping.{Safe, raise-Keeps, skip-Safe, get_bind-Keeps, when-Safe}
use shan_mqtt_broker.Server.Rules.{Rules}
use shan_mqtt_broker.Server.Starting.{new_server}
use shan_mqtt_broker.Server.Kept.Sending.{
  emit-Safe, handle_publish-Safe, handle_puback-Safe, handle_pubrec-Safe, handle_pubrel-Safe,
  handle_pubcomp-Safe,
}
use shan_mqtt_broker.Server.Kept.Subscribing.{handle_subscribe-Safe, handle_unsubscribe-Safe}
use shan_mqtt_broker.Server.Kept.Connecting.{handle_connect-Safe}
use shan_mqtt_broker.Server.Kept.Leaving.{
  handle_pingreq-Safe, handle_disconnect-Safe, handle_channel_disconnected-Safe,
}
use shan_mqtt_broker.Handler.{
  handle_packet, channel_created, channel_connected, channel_rdbuf_empty, channel_write,
  channel_read, exception_caught, channel_written, channel_disconnected, user_event,
}

-- What the network library reports of a channel. `rounds` is the fuel of `handle_connect`.
pub data Event : Type 0 where
  read : (rounds channel : ℕ) → Option Packet → Event
  written disconnected created connected rdbuf_empty : (channel : ℕ) → Event
  writing : (channel : ℕ) → Option Packet → Event
  timer : (channel id : ℕ) → Event
  exception : (channel : ℕ) → Error → Event

abbrev pub on_event : Env → Event → M (Unit {0})
on_event env (read rounds channel data_ptr) = channel_read env rounds channel data_ptr
on_event env (written channel) = channel_written channel
on_event env (disconnected channel) = channel_disconnected channel
on_event env (created channel) = channel_created channel
on_event env (connected channel) = channel_connected channel
on_event env (rdbuf_empty channel) = channel_rdbuf_empty channel
on_event env (writing channel data_ptr) = channel_write channel data_ptr
on_event env (timer channel id) = user_event channel id
on_event env (exception channel e) = exception_caught channel e

-- The states of a server that has been started: whatever happens on its channels, one event after
-- the other, each handler to its end or to its exception. Which channels `channel_context_of` finds
-- may differ from one event to the next.
pub data Reachable (env : Env) : Server → Type 0 where
  started : Reachable env new_server
  next :
      {s : Server}
      → Reachable env s
      → (channel_open : ℕ → Bool) (e : Event)
      → Reachable env (on_event (record env { channel_open = channel_open }) e s).1

module _ {P : Server → Type 0} (r : Rules P) where
  handle_packet-Safe :
      (env : Env) (rounds channel : ℕ) (p : Packet) → Safe P (handle_packet env rounds channel p)
  unfolding handle_packet
  handle_packet-Safe env rounds channel (connect p) = handle_connect-Safe r env rounds channel p
  handle_packet-Safe env rounds channel (connack p) = raise-Keeps _
  handle_packet-Safe env rounds channel (publish p) = handle_publish-Safe r.sending channel p
  handle_packet-Safe env rounds channel (puback p) = handle_puback-Safe r.sending channel p
  handle_packet-Safe env rounds channel (pubrec p) = handle_pubrec-Safe r.sending channel p
  handle_packet-Safe env rounds channel (pubrel p) = handle_pubrel-Safe r.sending channel p
  handle_packet-Safe env rounds channel (pubcomp p) = handle_pubcomp-Safe r.sending channel p
  handle_packet-Safe env rounds channel (subscribe p) = handle_subscribe-Safe r channel p
  handle_packet-Safe env rounds channel (suback p) = raise-Keeps _
  handle_packet-Safe env rounds channel (unsubscribe p) = handle_unsubscribe-Safe r channel p
  handle_packet-Safe env rounds channel (unsuback p) = raise-Keeps _
  handle_packet-Safe env rounds channel (pingreq p) = handle_pingreq-Safe r.sending channel
  handle_packet-Safe env rounds channel (pingresp p) = raise-Keeps _
  handle_packet-Safe env rounds channel (disconnect p) = handle_disconnect-Safe r channel

  channel_read-Safe :
      (env : Env) (rounds channel : ℕ) (p : Option Packet)
      → Safe P (channel_read env rounds channel p)
  unfolding channel_read
  channel_read-Safe env rounds channel none = raise-Keeps _
  channel_read-Safe env rounds channel (some p) = handle_packet-Safe env rounds channel p

  pub on_event-Safe : (env : Env) (e : Event) → Safe P (on_event env e)
  unfolding channel_written channel_disconnected user_event exception_caught
  on_event-Safe env (read rounds channel p) = channel_read-Safe env rounds channel p
  on_event-Safe env (written channel) =
      get_bind-Keeps λ s. when-Safe (not (is_some (s.param channel))) (λ _. emit-Safe r.sending _)
  on_event-Safe env (disconnected channel) = handle_channel_disconnected-Safe r channel
  on_event-Safe env (created channel) = skip-Safe
  on_event-Safe env (connected channel) = skip-Safe
  on_event-Safe env (rdbuf_empty channel) = skip-Safe
  on_event-Safe env (writing channel p) = skip-Safe
  on_event-Safe env (timer channel id) =
      when-Safe (id == id_no_connect || (id == id_client_idle || id == id_client_disconnected))
        (λ _. emit-Safe r.sending _)
  on_event-Safe env (exception channel e) = emit-Safe r.sending _

  -- Any property that obeys the laws and holds at the start holds in every state.
  pub reachable_induction : (env : Env) (s : Server) → Reachable env s → P new_server → P s
  reachable_induction env _ started p = p
  reachable_induction env _ (next {s} d channel_open e) p =
      ((on_event-Safe (record env { channel_open = channel_open }) e).kept s
        (reachable_induction env s d p)).1
