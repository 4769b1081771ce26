-- ===== src/Server/Connecting.antt =====
-- `mqtt_server::handle_connect` (player/mqtt_server.cpp).
use shan_mqtt_broker.Base.{
  ℕ, ◌*◌, Bool, true, false, not, ◌&&◌, Option, none, some, is_some, List, [], ◌∷◌, ◌++◌, Bytes,
  bytes_eq, map, ◌==◌, if◌then◌else◌,
}
use shan_mqtt_broker.Constants.{id_client_idle}
use shan_mqtt_broker.Packet.Publish.{Publish, set_dup}
use shan_mqtt_broker.Packet.Connect.{Connect, check_integrity}
use shan_mqtt_broker.Packet.Acks.{make_connack, make_pubrel}
use shan_mqtt_broker.Packet.Any
use shan_mqtt_broker.Session.{Subscription}
use shan_mqtt_broker.Server.State.{
  Client, Env, write, close, M, pure, lift, ◌>>=◌, ◌>>◌, skip, when, get, for_each, emit, set_param,
  alloc_session, modify_session,
}
use shan_mqtt_broker.Server.Clients.{make_client}
use shan_mqtt_broker.Server.Topics.{TopicPtr, modify_topic, topic_subscribe}
use shan_mqtt_broker.Server.Registry.{
  get_client_ptr, reg_client_ptr, delete_client_ptr, get_session_ptr, reg_session_ptr,
  delete_session_ptr, is_admin, authenticate, reset_idle_timer, generate_loop,
  get_topic_ptr_to_subscribe, publish_retained_message,
}

abbrev pub write_connack : ℕ → Bool → ℕ → M (Unit {0})
write_connack channel session_present code = do
  p ← lift (make_connack session_present code)
  emit (write channel (Any.connack p))

-- "a client of the same id is connected already": its registration goes, and its channel is closed.
abbrev pub replace_old : Env → Bytes → Option Client → M (Unit {0})
replace_old env client_id none = skip
replace_old env client_id (some old) = do
  delete_client_ptr client_id
  when (env.channel_open old.channel_id)
      (do set_param old.channel_id none; emit (close old.channel_id))

-- The session that a client without `clean_session` finds, or gets, and `session_present`.
abbrev pub restore_session : Client → Option ℕ → M (Client × Bool)
restore_session c (some p) = pure (record c { session = p }, true)
restore_session c none = do
  p ← alloc_session
  reg_session_ptr c.client_id p
  pure (record c { session = p }, false)

abbrev pub fresh_session : Client → M (Client × Bool)
fresh_session c = do
  delete_session_ptr c.client_id
  p ← alloc_session
  reg_session_ptr c.client_id p
  pure (record c { session = p }, false)

unfoldable pub choose_session : Client → M (Client × Bool)
choose_session c =
    if not c.clean_session
    then (do s ← get; restore_session c (get_session_ptr c.client_id s))
    else fresh_session c

-- The loop over the subscriptions of a restored session; the result holds the exact topics and the
-- wild ones.
unfoldable pub resubscribe :
    Client → List Subscription → List TopicPtr → List TopicPtr → M (List TopicPtr × List TopicPtr)
unfolding topic_subscribe
resubscribe c [] exacts wilds = pure (exacts, wilds)
resubscribe c (sub ∷ subs) exacts wilds = do
  ptr ← get_topic_ptr_to_subscribe sub.topic_filter sub.is_wild
  modify_topic ptr (topic_subscribe c sub.max_qos)
  resubscribe c subs (if sub.is_wild then exacts else (exacts ++ ptr ∷ []))
      (if sub.is_wild then (wilds ++ ptr ∷ []) else wilds)

-- `pub_ptr->dup(true); write_channel(channel, pub_ptr);` for each packet. The packets are the ones
-- that the session holds.
abbrev pub send_again : ℕ → List Publish → M (Unit {0})
send_again channel ps = for_each ps (λ p. emit (write channel (Any.publish (set_dup true p))))

abbrev pub send_pubrel : ℕ → ℕ → M (Unit {0})
send_pubrel channel id = do p ← lift (make_pubrel id); emit (write channel (Any.pubrel p))

unfoldable pub retry_unacked : Client → M (Unit {0})
unfolding set_dup
retry_unacked c = do
  s ← get
  let session = s.heap c.session
  send_again c.channel_id session.publish_for_ack
  modify_session c.session
      (λ t. record t { publish_for_ack = map (set_dup true) t.publish_for_ack })
  send_again c.channel_id session.publish_for_rec
  modify_session c.session
      (λ t. record t { publish_for_rec = map (set_dup true) t.publish_for_rec })
  for_each session.packet_id_for_pubcomp (λ id. send_pubrel c.channel_id id)

-- What follows the CONNACK where a session was restored.
unfoldable pub resume : Client → M (Unit {0})
unfolding resubscribe retry_unacked publish_retained_message
resume c = do
  s ← get
  (exacts, wilds) ← resubscribe c (s.heap c.session).subscriptions [] []
  retry_unacked c
  publish_retained_message c exacts wilds

-- From the look for an old client of the same id on.
unfoldable pub register : Env → ℕ → Connect → Client → M (Unit {0})
unfolding choose_session resume
register env channel packet c = do
  s ← get
  replace_old env packet.client_id (get_client_ptr packet.client_id s)
  (c', session_present) ← choose_session c
  reg_client_ptr c'
  set_param channel (some c')
  write_connack channel session_present 0x00
  reset_idle_timer channel id_client_idle (packet.keep_alive * 1500)
  when session_present (resume c')

-- From the return code of `check_integrity` on.
unfoldable pub accept : Env → ℕ → Client → ℕ × Connect → M (Unit {0})
unfolding register
accept env channel c (return_code, packet) =
    if not (return_code == 0)
    then write_connack channel false return_code
    else (if is_admin env.cfg packet.username packet.password
        then register env channel packet (record c { admin = true })
        else (if env.cfg.authentication
              && not (authenticate env.cfg packet.username packet.password)
            then write_connack channel false 0x05
            else register env channel packet c))

-- `mqtt_server::handle_connect`; `rounds` is fuel for the loop of `generate_unique_id`. Neither
-- `ctx->close()` ends the handler.
unfoldable pub handle_connect : Env → ℕ → ℕ → Connect → M (Unit {0})
unfolding accept check_integrity generate_loop make_client
handle_connect env rounds channel packet = do
  s ← get
  when (is_some (s.param channel)) (emit (close channel))
  let c = make_client packet channel
  when (not (bytes_eq packet.protocol_name env.cfg.protocol_name)) (emit (close channel))
  checked ← check_integrity (generate_loop env rounds) packet
  accept env channel c checked
