-- ===== src/Server/ConnectRestored.antt =====
-- `handle_connect` (player/mqtt_server.cpp) on an accepted CONNECT whose session is there still.
use shan_mqtt_broker.Packet.FixedHeader.{check_flags, make_fixed_header}
use shan_mqtt_broker.Packet.Acks.{make_connack}
use shan_mqtt_broker.Base.{
  ℕ, ◌*◌, ◌≡◌, refl, ◌∙◌, ap, true, false, none, some, Option, Bytes, is_empty, [], ◌∷◌, ◌++◌,
}
use shan_mqtt_broker.Constants.{id_client_idle}
use shan_mqtt_broker.Packet.Connect.{Connect}
use shan_mqtt_broker.Packet.Any
use shan_mqtt_broker.Server.State.{Client, Env, Server, write, reset_timer, update, update_same}
use shan_mqtt_broker.Server.Maps.{at, insert}
use shan_mqtt_broker.Server.Clients.{make_client}
use shan_mqtt_broker.Server.Registry.{get_client_ptr, get_session_ptr, is_admin}
use shan_mqtt_broker.Server.Connecting.{choose_session, handle_connect, register, resume}
use shan_mqtt_broker.Server.ConnectRules.{
  expected_code, closes, connack_of, with_output, connect_checked,
}
use shan_mqtt_broker.Server.ConnectAccepted.{
  accepted_client, replaced, closes_old, accept_clean, replace_old_lem, unregistered,
  replaced_output, output_assoc, at-insert_new,
}

-- The state before `resume`.
abbrev pub reconnected : Env → ℕ → Connect → ℕ → Server → Server
reconnected env channel p session s =
    let s' = replaced env p.client_id (get_client_ptr p.client_id s) s in
    let c = accepted_client env channel p session in
    record s' {
      clients = insert p.client_id c s'.clients;
      param = update channel (some c) s'.param;
      output =
          (s'.output ++ write channel (Any.connack (connack_of true 0)) ∷ [])
          ++ reset_timer channel id_client_idle (p.keep_alive * 1500) ∷ [];
    }

replaced_sessions :
    (env : Env) (id : Bytes) (old : Option Client) (s : Server)
    → (replaced env id old s).sessions ≡ s.sessions
replaced_sessions env id none s = refl
replaced_sessions env id (some old) s = refl

replaced_heap :
    (env : Env) (id : Bytes) (old : Option Client) (s : Server)
    → (replaced env id old s).heap ≡ s.heap
replaced_heap env id none s = refl
replaced_heap env id (some old) s = refl

register_restored :
    (env : Env) (channel : ℕ) (p : Connect) (session : ℕ) (s : Server)
    → p.clean_session ≡ false
    → get_session_ptr p.client_id s ≡ some session
    → register env channel p
        (record (make_client p channel) { admin = is_admin env.cfg p.username p.password })
        s
      ≡ resume (accepted_client env channel p session) (reconnected env channel p session s)
unfolding register choose_session make_client make_connack make_fixed_header check_flags
register_restored env channel p session s h g =
    let found : get_session_ptr p.client_id
          (replaced env p.client_id (get_client_ptr p.client_id s) s)
        ≡ some session =
      ap (at p.client_id) (replaced_sessions env p.client_id (get_client_ptr p.client_id s) s)
      ∙ g in
    rw (replace_old_lem env p.client_id (get_client_ptr p.client_id s) s, h, found) refl

-- An accepted CONNECT without "clean session", of an identifier that is not empty and has a
-- session: the client is registered with that very session, no session changes, the answer is a
-- CONNACK with "session present", and the handler goes on with `resume`.
pub connect_restores :
    (env : Env) (rounds channel session : ℕ) (p : Connect) (s : Server)
    → is_empty p.client_id ≡ false
    → p.clean_session ≡ false
    → expected_code env.cfg p ≡ 0
    → get_session_ptr p.client_id s ≡ some session
    → (c : Client) × (s' : Server) × (handle_connect env rounds channel p s ≡ resume c s')
      × (get_client_ptr p.client_id s' ≡ some c)
      × (s'.param channel ≡ some c)
      × (c.client_id ≡ p.client_id)
      × (c.session ≡ session)
      × (s'.heap ≡ s.heap)
      × (s'.output
          ≡ s.output
            ++ (closes env channel p s
                ++ (closes_old env (get_client_ptr p.client_id s)
                    ++ write channel (Any.connack (connack_of true 0))
                      ∷ reset_timer channel id_client_idle (p.keep_alive * 1500)
                      ∷ [])))
unfolding make_client
connect_restores env rounds channel session p s h k e g =
    let s1 = with_output s (closes env channel p s) in
    let old = get_client_ptr p.client_id s in
    let s2 = replaced env p.client_id old s1 in
    let answer = write channel (Any.connack (connack_of true 0)) in
    let timer = reset_timer channel id_client_idle (p.keep_alive * 1500) in
    (
      accepted_client env channel p session,
      reconnected env channel p session s1,
      connect_checked env rounds channel p s h
          ∙ accept_clean env channel p s1 e
          ∙ register_restored env channel p session s1 k g,
      at-insert_new p.client_id _ s2.clients (unregistered env p.client_id s1),
      update_same channel _ s2.param,
      refl,
      refl,
      replaced_heap env p.client_id old s1,
      ap (λ l. (l ++ answer ∷ []) ++ timer ∷ []) (replaced_output env p.client_id old s1)
          ∙ output_assoc s.output (closes env channel p s) (closes_old env old) answer timer,
    )
