-- ===== src/Server/State.antt =====
-- The state that the handlers work on (player/mqtt_server.h, player/mqtt_client.h, object/topic.h),
-- what they use of the rest of the program, and the monad that they run in.
use shan_mqtt_broker.Base.{
  arith, ◌≡◌, ◌≢◌, ℕ, suc, Bool, Option, List, [], ◌∷◌, ◌++◌, Bytes, ◌==◌, if◌then◌else◌,
}
use shan_mqtt_broker.Outcome.{Error, Result, ok, err, stuck}
use shan_mqtt_broker.Packet.Publish.{Publish}
use shan_mqtt_broker.Packet.Any.{Packet}
use shan_mqtt_broker.Session.{Session, new_session}
use shan_mqtt_broker.Config.{Config}

-- `mqtt_client`. Nothing of it but the session is changed once it is registered, so it is a value;
-- `session` is `_session_ptr`, a place in the heap below.
pub record Client : Type 0 where
  pub channel_id : ℕ
  pub client_id : Bytes
  pub admin : Bool
  pub clean_session : Bool
  pub will_flag : Bool
  pub will_qos : ℕ
  pub will_retain : Bool
  pub will_topic : Bytes
  pub will_message : Bytes
  pub session : ℕ

-- `topic`. `_clients` is a map from clients, which it compares by client id, to granted QoS.
pub record Topic : Type 0 where
  pub topic_filter : Bytes
  pub retained_message : Option Publish
  pub clients : List (Client × ℕ)

-- What the handlers call on the network library.
pub data Effect : Type 0 where
  -- `ctx->write` and `write_channel`, on a channel
  write : ℕ → Packet → Effect
  -- `ctx->close()`
  close : ℕ → Effect
  -- `reset_channel_timer(channel, timer, milliseconds, nullptr)`
  reset_timer : ℕ → ℕ → ℕ → Effect

-- What the handlers take from outside: the configuration, the results of `std::rand`, one after the
-- other, and whether `channel_context_of` finds the channel.
pub record Env : Type 0 where
  pub cfg : Config
  pub rand : ℕ → ℕ
  pub channel_open : ℕ → Bool

-- `mqtt_server`, the sessions on the heap, the parameter of each channel's context, the number of
-- calls of `std::rand`, and the calls on the network so far.
pub record Server : Type 0 where
  pub clients : List (Bytes × Client)
  pub topics : List (Bytes × Topic)
  pub wild_topics : List (Bytes × Topic)
  pub trash_topic : Topic
  pub sessions : List (Bytes × ℕ)
  pub heap : ℕ → Session
  pub next_session : ℕ
  pub param : ℕ → Option Client
  pub rand_calls : ℕ
  pub output : List Effect

-- An exception leaves the state as it is where it is thrown.
abbrev pub M : Type 0 → Type 0
M A = Server → Result A × Server

abbrev pub pure : {A : Type 0} → A → M A
pure a s = (ok a, s)

abbrev pub raise : {A : Type 0} → Error → M A
raise e s = (err e, s)

abbrev pub lift : {A : Type 0} → Result A → M A
lift r s = (r, s)

abbrev pub bind_at : {A B : Type 0} → Result A × Server → (A → M B) → Result B × Server
bind_at (ok a, s) f = f a s
bind_at (err e, s) f = (err e, s)
bind_at (stuck, s) f = (stuck, s)

infixl 5 ◌>>=◌ ◌>>◌
abbrev pub ◌>>=◌ : {A B : Type 0} → M A → (A → M B) → M B
◌>>=◌ m f s = bind_at (m s) f

abbrev pub ◌>>◌ : {B : Type 0} → M (Unit {0}) → M B → M B
m >> k = m >>= λ _. k

abbrev pub catch_at : {A : Type 0} → Result A × Server → (Error → M A) → Result A × Server
catch_at (ok a, s) f = (ok a, s)
catch_at (err e, s) f = f e s
catch_at (stuck, s) f = (stuck, s)

-- `try { m } catch (const std::exception& e) { f(e); }`
abbrev pub try_catch : {A : Type 0} → M A → (Error → M A) → M A
try_catch m f s = catch_at (m s) f

abbrev pub get : M Server
get s = (ok s, s)

abbrev pub put : Server → M (Unit {0})
put s _ = (ok tt, s)

abbrev pub skip : M (Unit {0})
skip = pure tt

abbrev pub when : Bool → M (Unit {0}) → M (Unit {0})
when b m = if b then m else skip

-- `for (auto a : list) body(a);`
abbrev pub for_each {ℓ} : {A : Type ℓ} → List A → (A → M (Unit {0})) → M (Unit {0})
for_each [] body = skip
for_each (a ∷ l) body = body a >> for_each l body

abbrev pub emit : Effect → M (Unit {0})
emit e s = (ok tt, record s { output = s.output ++ e ∷ [] })

abbrev pub update {ℓ} : {A : Type ℓ} → ℕ → A → (ℕ → A) → ℕ → A
update p v f q = if q == p then v else f q

pub update_same {ℓ} : {A : Type ℓ} → (k : ℕ) (v : A) (f : ℕ → A) → update k v f k ≡ v
update_same k v f = ground arith

pub update_other {ℓ} :
    {A : Type ℓ} → (k : ℕ) (v : A) (f : ℕ → A) (j : ℕ) → j ≢ k → update k v f j ≡ f j
update_other k v f j n = ground arith

abbrev pub set_param : ℕ → Option Client → M (Unit {0})
set_param channel c s = (ok tt, record s { param = update channel c s.param })

-- `std::make_shared<session>()`
abbrev pub alloc_session : M ℕ
alloc_session s = (
  ok s.next_session,
  record s { heap = update s.next_session new_session s.heap; next_session = suc s.next_session },
)

abbrev pub modify_session : ℕ → (Session → Session) → M (Unit {0})
modify_session p f s = (ok tt, record s { heap = update p (f (s.heap p)) s.heap })
