-- ===== src/Server/Leaving.antt =====
-- `handle_pingreq`, `handle_disconnect` and `handle_channel_disconnected` (player/mqtt_server.cpp).
use shan_mqtt_broker.Base.{ℕ, Option, none, some}
use shan_mqtt_broker.Constants.{id_client_disconnected}
use shan_mqtt_broker.Packet.Pings.{make_pingresp}
use shan_mqtt_broker.Packet.Any
use shan_mqtt_broker.Server.State.{
  Client, write, M, lift, ◌>>=◌, ◌>>◌, skip, when, get, emit, set_param,
}
use shan_mqtt_broker.Server.Registry.{
  delete_client_ptr, delete_session_ptr, reset_idle_timer, publish_will_message, unsubscribe_all,
  unsubscribe_each,
}
use shan_mqtt_broker.Server.Publishing.{agent}

unfoldable pub handle_pingreq : ℕ → M (Unit {0})
unfolding agent
handle_pingreq channel = do
  c ← agent channel
  p ← lift make_pingresp
  emit (write channel (Any.pingresp p))

-- What both ways of leaving do with the client's subscriptions, session and registration.
unfoldable pub forget : Client → M (Unit {0})
unfolding unsubscribe_each
forget c = do
  unsubscribe_all c
  when c.clean_session (delete_session_ptr c.client_id)
  delete_client_ptr c.client_id

unfoldable pub handle_disconnect : ℕ → M (Unit {0})
unfolding agent forget
handle_disconnect channel = do
  c ← agent channel
  set_param channel none
  forget c
  reset_idle_timer channel id_client_disconnected 10000

abbrev pub leave : Option Client → M (Unit {0})
leave none = skip
leave (some c) = do publish_will_message c; forget c

unfoldable pub handle_channel_disconnected : ℕ → M (Unit {0})
unfolding forget publish_will_message
handle_channel_disconnected channel = do s ← get; leave (s.param channel)
