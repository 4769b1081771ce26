-- ===== src/Server/ConnectAccepted.antt =====
-- `handle_connect` (player/mqtt_server.cpp) on an accepted CONNECT that asks for a clean session.
use shan_mqtt_broker.Packet.FixedHeader.{check_flags, make_fixed_header}
use shan_mqtt_broker.Packet.Acks.{make_connack}
use shan_mqtt_broker.Base.{
  bytes_eq_refl, append-nil, bytes_eq_iff, sym, ℕ, suc, ◌*◌, ◌≡◌, refl, ◌∙◌, ap, Bool, true, false,
  none, some, Option, Bytes, is_empty, List, [], ◌∷◌, ◌++◌, append_assoc, arith,
}
use shan_mqtt_broker.Constants.{id_client_idle}
use shan_mqtt_broker.Outcome.{ok}
use shan_mqtt_broker.Packet.Connect.{Connect}
use shan_mqtt_broker.Packet.Any
use shan_mqtt_broker.Session.{new_session}
use shan_mqtt_broker.Server.State.{
  update_same, when, Client, Env, Server, ◌>>◌, set_param, emit, Effect, write, close, reset_timer,
  update,
}
use shan_mqtt_broker.Server.Maps.{at, insert, erase, at-erase}
use shan_mqtt_broker.Server.Clients.{make_client}
use shan_mqtt_broker.Server.Registry.{get_client_ptr, get_session_ptr, is_admin}
use shan_mqtt_broker.Server.Connecting.{
  choose_session, handle_connect, accept, register, replace_old,
}
use shan_mqtt_broker.Server.ConnectRules.{
  authenticate_lem, expected_code, integrity, closes, connack_of, with_output, connect_checked,
}

-- The client that `handle_connect` makes, with the session at the place `session`.
abbrev pub accepted_client : Env → ℕ → Connect → ℕ → Client
accepted_client env channel p session = record (make_client p channel) {
  admin = is_admin env.cfg p.username p.password;
  session = session;
}

-- The state after an older client of the same id lost its registration.
abbrev param_without : Bool → Client → (ℕ → Option Client) → ℕ → Option Client
param_without true old f = update old.channel_id none f
param_without false old f = f

abbrev pub closing : Bool → ℕ → List Effect
closing true channel = close channel ∷ []
closing false channel = []

abbrev pub replaced : Env → Bytes → Option Client → Server → Server
replaced env id none s = s
replaced env id (some old) s = record s {
  clients = erase id s.clients;
  param = param_without (env.channel_open old.channel_id) old s.param;
  output = s.output ++ closing (env.channel_open old.channel_id) old.channel_id;
}

close_old :
    (is_open : Bool) (old : Client) (s : Server)
    → when is_open (do set_param old.channel_id none; emit (close old.channel_id)) s ≡ (
      ok tt,
      record s {
        param = param_without is_open old s.param;
        output = s.output ++ closing is_open old.channel_id;
      },
    )
close_old true old s = refl
close_old false old s = ap (λ l. (ok tt, record s { output = l })) (sym (append-nil s.output))

pub replace_old_lem :
    (env : Env) (id : Bytes) (old : Option Client) (s : Server)
    → replace_old env id old s ≡ (ok tt, replaced env id old s)
replace_old_lem env id none s = refl
replace_old_lem env id (some old) s = close_old (env.channel_open old.channel_id) old _

pub accept_clean :
    (env : Env) (channel : ℕ) (p : Connect) (s : Server)
    → expected_code env.cfg p ≡ 0
    → accept env channel (make_client p channel) (integrity p, p) s
      ≡ register env channel p
          (record (make_client p channel) { admin = is_admin env.cfg p.username p.password })
          s
unfolding accept make_client
accept_clean env channel p s h = ground (arith, authenticate_lem env.cfg p)

-- The state after the CONNECT.
abbrev pub connected : Env → ℕ → Connect → Server → Server
connected env channel p s =
    let id = p.client_id in
    let s' = replaced env id (get_client_ptr id s) s in
    let c = accepted_client env channel p s'.next_session in
    record s' {
      clients = insert id c s'.clients;
      sessions = insert id s'.next_session (erase id s'.sessions);
      heap = update s'.next_session new_session s'.heap;
      next_session = suc s'.next_session;
      param = update channel (some c) s'.param;
      output =
          (s'.output ++ write channel (Any.connack (connack_of false 0)) ∷ [])
          ++ reset_timer channel id_client_idle (p.keep_alive * 1500) ∷ [];
    }

register_clean :
    (env : Env) (channel : ℕ) (p : Connect) (s : Server)
    → p.clean_session ≡ true
    → register env channel p
        (record (make_client p channel) { admin = is_admin env.cfg p.username p.password })
        s
      ≡ (ok tt, connected env channel p s)
unfolding register choose_session make_client make_connack make_fixed_header check_flags
register_clean env channel p s h =
    rw (replace_old_lem env p.client_id (get_client_ptr p.client_id s) s, h) refl

pub at-insert_new :
    {V : Type 0} (k : Bytes) (v : V) (m : List (Bytes × V))
    → at k m ≡ none
    → at k (insert k v m) ≡ some v
unfolding at insert
at-insert_new k v m h = ground (arith, bytes_eq_iff k k)

unregistered_as :
    (env : Env) (id : Bytes) (s : Server) (old : Option Client)
    → get_client_ptr id s ≡ old
    → at id (replaced env id old s).clients ≡ none
unregistered_as env id s none h = h
unregistered_as env id s (some old) h = at-erase id id s.clients ∙ rw (bytes_eq_refl id) refl

pub unregistered :
    (env : Env) (id : Bytes) (s : Server)
    → at id (replaced env id (get_client_ptr id s) s).clients ≡ none
unregistered env id s = unregistered_as env id s (get_client_ptr id s) refl

-- The call that closes the channel of an older client of the same id.
abbrev pub closes_old : Env → Option Client → List Effect
closes_old env none = []
closes_old env (some old) = closing (env.channel_open old.channel_id) old.channel_id

pub replaced_output :
    (env : Env) (id : Bytes) (old : Option Client) (s : Server)
    → (replaced env id old s).output ≡ s.output ++ closes_old env old
replaced_output env id none s = sym (append-nil s.output)
replaced_output env id (some old) s = refl

pub output_assoc :
    (o a b : List Effect) (w r : Effect)
    → (((o ++ a) ++ b) ++ w ∷ []) ++ r ∷ [] ≡ o ++ (a ++ (b ++ w ∷ r ∷ []))
output_assoc o a b w r =
    append_assoc ((o ++ a) ++ b) (w ∷ []) (r ∷ [])
    ∙ append_assoc (o ++ a) b (w ∷ r ∷ [])
    ∙ append_assoc o a (b ++ w ∷ r ∷ [])

-- The clients of the channels once the channel of an older client has lost its own.
abbrev pub cleared : Env → Option Client → (ℕ → Option Client) → ℕ → Option Client
cleared env none f = f
cleared env (some old) f = param_without (env.channel_open old.channel_id) old f

pub replaced_param :
    (env : Env) (id : Bytes) (old : Option Client) (s : Server)
    → (replaced env id old s).param ≡ cleared env old s.param
replaced_param env id none s = refl
replaced_param env id (some old) s = refl

-- A CONNECT with a client identifier that the rules accept and that asks for a clean session
-- registers a client with a session of its own that is new, whatever client or session the
-- identifier had before: the old client's channel, where it is still there, is closed and loses its
-- client, no other channel but the new one has its client changed, and the answer is a CONNACK
-- without "session present". The output also shows that the handler goes on after it
-- has closed the channel of a second CONNECT, or of another protocol.
pub connect_clean_session :
    (env : Env) (rounds channel : ℕ) (p : Connect) (s : Server)
    → is_empty p.client_id ≡ false
    → p.clean_session ≡ true
    → expected_code env.cfg p ≡ 0
    → (c : Client) × (s' : Server) × (handle_connect env rounds channel p s ≡ (ok tt, s'))
      × (get_client_ptr p.client_id s' ≡ some c)
      × (s'.param channel ≡ some c)
      × (s'.param ≡ update channel (some c) (cleared env (get_client_ptr p.client_id s) s.param))
      × (c.client_id ≡ p.client_id)
      × (get_session_ptr p.client_id s' ≡ some c.session)
      × (s'.heap c.session ≡ new_session)
      × (s'.output
          ≡ s.output
            ++ (closes env channel p s
                ++ (closes_old env (get_client_ptr p.client_id s)
                    ++ write channel (Any.connack (connack_of false 0))
                      ∷ reset_timer channel id_client_idle (p.keep_alive * 1500)
                      ∷ [])))
unfolding make_client
connect_clean_session env rounds channel p s h k e =
    let s1 = with_output s (closes env channel p s) in
    let answer = write channel (Any.connack (connack_of false 0)) in
    let timer = reset_timer channel id_client_idle (p.keep_alive * 1500) in
    let s2 = replaced env p.client_id (get_client_ptr p.client_id s) s1 in
    (
      accepted_client env channel p s2.next_session,
      connected env channel p s1,
      connect_checked env rounds channel p s h
          ∙ accept_clean env channel p s1 e
          ∙ register_clean env channel p s1 k,
      at-insert_new p.client_id _ s2.clients (unregistered env p.client_id s1),
      update_same channel _ s2.param,
      ap (update channel (some (accepted_client env channel p s2.next_session)))
          (replaced_param env p.client_id (get_client_ptr p.client_id s) s1),
      refl,
      at-insert_new p.client_id _ (erase p.client_id s2.sessions)
          (at-erase p.client_id p.client_id s2.sessions ∙ rw (bytes_eq_refl p.client_id) refl),
      update_same s2.next_session new_session s2.heap,
      ap (λ l. (l ++ answer ∷ []) ++ timer ∷ [])
            (replaced_output env p.client_id (get_client_ptr p.client_id s) s1)
          ∙ output_assoc s.output (closes env channel p s)
              (closes_old env (get_client_ptr p.client_id s)) answer timer,
    )
