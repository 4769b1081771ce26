-- ===== src/Server/ConnectRules.antt =====
-- What `handle_connect` (player/mqtt_server.cpp) answers, and what it does to the state.
use shan_mqtt_broker.Packet.FixedHeader.{check_flags, make_fixed_header}
use shan_mqtt_broker.Server.Clients.{make_client}
use shan_mqtt_broker.Packet.Any
use shan_mqtt_broker.Server.Connecting.{accept, handle_connect}
use shan_mqtt_broker.Outcome.{ok}
use shan_mqtt_broker.Server.Registry.{authenticate, generate_loop}
use shan_mqtt_broker.Packet.Acks.{make_connack, Connack}
use shan_mqtt_broker.Config.{Config}
use shan_mqtt_broker.Server.State.{◌>>◌, Client, emit, when, M, write, close, Effect, Server, Env}
use shan_mqtt_broker.Packet.Connect.{all_alnum, Connect, check_integrity}
use shan_mqtt_broker.Base.{
  bytes_eq_iff, append-nil, sym, append_assoc, ap, arith, ℕ, ◌≡◌, ◌≢◌, refl, ◌∙◌, Bool, true, false,
  not, ◌&&◌, ◌||◌, Bytes, length, is_some, is_empty, bytes_eq, ◌==◌, ltb, if◌then◌else◌, List, [],
  ◌∷◌, ◌++◌,
}

-- The return code by the rules of MQTT 3.1.1, section 3.2.2.3, and of this server on identifiers.
abbrev pub bad_identifier : Connect → Bool
bad_identifier p =
    ltb 23 (length p.client_id)
    || (not (all_alnum p.client_id) || (is_empty p.client_id && not p.clean_session))

bytes_eq_comm : (xs ys : Bytes) → bytes_eq xs ys ≡ bytes_eq ys xs
bytes_eq_comm xs ys = ground (arith, bytes_eq_iff xs ys, bytes_eq_iff ys xs)

-- The user name and the password of a CONNECT are these two.
abbrev has_credentials : Connect → Bytes → Bytes → Bool
has_credentials p name password = bytes_eq p.username name && bytes_eq p.password password

-- The administrator may always connect; where authentication is on, only the configured user
-- besides, with the configured password.
abbrev pub is_authorized : Config → Connect → Bool
is_authorized cfg p =
    has_credentials p cfg.adminname cfg.adminpass
    || (not cfg.authentication || has_credentials p cfg.username cfg.password)

pub authenticate_lem :
    (cfg : Config) (p : Connect)
    → authenticate cfg p.username p.password ≡ has_credentials p cfg.username cfg.password
authenticate_lem cfg p =
    rw (bytes_eq_comm cfg.username p.username, bytes_eq_comm cfg.password p.password) refl

abbrev pub expected_code : Config → Connect → ℕ
expected_code cfg p =
    if not (p.protocol_level == 4)
    then 0x01
    else (if bad_identifier p
        then 0x02
        else (if p.password_flag && not p.username_flag
            then 0x04
            else (if is_authorized cfg p then 0x00 else 0x05)))

-- The calls of `ctx->close()` before the answer: for a second CONNECT and for another protocol.
abbrev pub closes : Env → ℕ → Connect → Server → List Effect
closes env channel p s =
    (if is_some (s.param channel) then close channel ∷ [] else [])
    ++ (if bytes_eq p.protocol_name env.cfg.protocol_name then [] else close channel ∷ [])

abbrev pub connack_of : Bool → ℕ → Connack
connack_of present code = record {
  fh = record { packet_type = 2; flags = 0; remaining_length = 2 };
  session_present = present;
  connect_return_code = code;
}

empty_length : (b : Bytes) → (length b == 0) ≡ is_empty b
empty_length [] = refl
empty_length (x ∷ b) = ground arith

-- The code of `check_integrity`.
abbrev pub integrity : Connect → ℕ
integrity p =
    if not (p.protocol_level == 4)
    then 0x01
    else (if bad_identifier p
        then 0x02
        else (if p.password_flag && not p.username_flag then 0x04 else 0x00))

checked :
    (env : Env) (rounds : ℕ) (p : Connect) (s : Server)
    → is_empty p.client_id ≡ false
    → check_integrity (generate_loop env rounds) p s ≡ (ok (integrity p, p), s)
unfolding check_integrity
checked env rounds p s h = ground (arith, empty_length p.client_id)

abbrev pub with_output : Server → List Effect → Server
with_output s l = record s { output = s.output ++ l }

-- What two optional calls before the rest of a handler add to the output.
pub greeted :
    (a b : Bool) (e f : Effect) (k : M (Unit {0})) (s : Server)
    → (when a (emit e) >> (when (not b) (emit f) >> k)) s
      ≡ k (with_output s ((if a then e ∷ [] else []) ++ (if b then [] else f ∷ [])))
greeted true true e f k s = refl
greeted true false e f k s =
    ap (λ l. k (record s { output = l })) (append_assoc s.output (e ∷ []) (f ∷ []))
greeted false true e f k s = ap (λ l. k (record s { output = l })) (sym (append-nil s.output))
greeted false false e f k s = refl

-- `handle_connect` goes on with the code that the checks of the packet find.
pub connect_checked :
    (env : Env) (rounds channel : ℕ) (p : Connect) (s : Server)
    → is_empty p.client_id ≡ false
    → handle_connect env rounds channel p s
      ≡ accept env channel
          (make_client p channel)
          (integrity p, p)
          (with_output s (closes env channel p s))
unfolding handle_connect
connect_checked env rounds channel p s h =
    greeted (is_some (s.param channel)) (bytes_eq p.protocol_name env.cfg.protocol_name)
      (close channel) (close channel) _ s
    ∙ rw (checked env rounds p (with_output s (closes env channel p s)) h) refl

accept_refused :
    (env : Env) (channel : ℕ) (c : Client) (p : Connect) (s : Server)
    → expected_code env.cfg p ≢ 0
    → accept env channel c (integrity p, p) s ≡ (
      ok tt,
      with_output s (write channel (Any.connack (connack_of false (expected_code env.cfg p))) ∷ []),
    )
unfolding accept make_connack make_fixed_header check_flags
accept_refused env channel c p s h = ground (arith, authenticate_lem env.cfg p)

-- A CONNECT that has a client identifier and that the rules refuse gets a CONNACK with their
-- return code, after the calls that close the channel of a second CONNECT or of another protocol,
-- and nothing else happens: no client, session or topic changes.
pub connect_refused :
    (env : Env) (rounds channel : ℕ) (p : Connect) (s : Server)
    → is_empty p.client_id ≡ false
    → expected_code env.cfg p ≢ 0
    → handle_connect env rounds channel p s ≡ (
      ok tt,
      with_output s (
          closes env channel p s
          ++ write channel (Any.connack (connack_of false (expected_code env.cfg p))) ∷ []),
    )
connect_refused env rounds channel p s h c =
    connect_checked env rounds channel p s h
    ∙ accept_refused env channel (make_client p channel) p (with_output s (closes env channel p s))
        c
    ∙ ap (λ l. (ok tt, record s { output = l })) (append_assoc s.output (closes env channel p s) _)
