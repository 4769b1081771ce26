-- ===== src/Server/Keeping.antt =====
-- What a program in the monad `M` keeps true of the server (player/mqtt_server.h), put together from
-- what its parts keep.
use shan_mqtt_broker.Base.{◌≡◌, Bool, true, false, List, [], ◌∷◌, if◌then◌else◌, refl}
use shan_mqtt_broker.Outcome.{Result, ok, err, stuck, Error}
use shan_mqtt_broker.Server.State.{
  Server, M, bind_at, catch_at, pure, raise, lift, ◌>>=◌, ◌>>◌, try_catch, get, skip, when,
  for_each,
}

-- `Q` of a value that is returned.
abbrev pub Post : {A : Type 0} → (A → Type 0) → Result A → Type 0
Post Q (ok a) = Q a
Post Q (err e) = Unit {0}
Post Q stuck = Unit {0}

-- From a state with `P` the program ends in one, and what it returns has `Q`.
pub record Keeps {A : Type 0} (P : Server → Type 0) (Q : A → Type 0) (m : M A) : Type 0 where
  pub kept : (s : Server) → P s → Post Q (m s).0 × P (m s).1

abbrev pub Whatever : {A : Type 0} → A → Type 0
Whatever a = Unit {0}

-- Nothing is said of the value that is returned.
abbrev pub Safe : (Server → Type 0) → {A : Type 0} → M A → Type 0
Safe P m = Keeps P Whatever m

-- Nothing is known of a result but that there may be one.
pub Post-Whatever : {A : Type 0} (r : Result A) → Post Whatever r
Post-Whatever (ok a) = tt
Post-Whatever (err e) = tt
Post-Whatever stuck = tt

after_bind :
    {A B : Type 0} (P : Server → Type 0) (Q : A → Type 0) (R : B → Type 0) (r : Result A × Server)
    (f : A → M B)
    → Post Q r.0 × P r.1
    → ((a : A) → Q a → Keeps P R (f a))
    → Post R (bind_at r f).0 × P (bind_at r f).1
after_bind P Q R (ok a, s) f h k = (k a h.0).kept s h.1
after_bind P Q R (err e, s) f h k = (tt, h.1)
after_bind P Q R (stuck, s) f h k = (tt, h.1)

after_catch :
    {A : Type 0} (P : Server → Type 0) (R : A → Type 0) (r : Result A × Server) (f : Error → M A)
    → Post R r.0 × P r.1
    → ((e : Error) → Keeps P R (f e))
    → Post R (catch_at r f).0 × P (catch_at r f).1
after_catch P R (ok a, s) f h k = h
after_catch P R (err e, s) f h k = (k e).kept s h.1
after_catch P R (stuck, s) f h k = h

module _ {P : Server → Type 0} {A : Type 0} {R : A → Type 0} where
  pub bind-Keeps :
      {B : Type 0} {Q : B → Type 0} {m : M B} {f : B → M A}
      → Keeps P Q m
      → ((b : B) → Q b → Keeps P R (f b))
      → Keeps P R (m >>= f)
  bind-Keeps h k = record { kept = λ s p. after_bind P _ R _ _ (h.kept s p) k }

  pub then-Keeps : {m : M (Unit {0})} {n : M A} → Safe P m → Keeps P R n → Keeps P R (m >> n)
  then-Keeps h k = bind-Keeps h (λ _ _. k)

  pub try_catch-Keeps :
      {m : M A} {f : Error → M A}
      → Keeps P R m
      → ((e : Error) → Keeps P R (f e))
      → Keeps P R (try_catch m f)
  try_catch-Keeps h k = record { kept = λ s p. after_catch P R _ _ (h.kept s p) k }

  pub if-Keeps :
      (b : Bool) {m n : M A}
      → (b ≡ true → Keeps P R m)
      → (b ≡ false → Keeps P R n)
      → Keeps P R (if b then m else n)
  if-Keeps true hm hn = hm refl
  if-Keeps false hm hn = hn refl

  pub lift-Keeps : (r : Result A) → Post R r → Keeps P R (lift r)
  lift-Keeps r h = record { kept = λ s p. (h, p) }

  pub lift_bind-Keeps :
      {B : Type 0} (r : Result B) {f : B → M A}
      → ((b : B) → Keeps P R (f b))
      → Keeps P R (lift r >>= f)
  lift_bind-Keeps r k =
      bind-Keeps {Q = Whatever} (record { kept = λ s p. (Post-Whatever r, p) }) (λ b _. k b)

  pub get_bind-Keeps : {f : Server → M A} → ((s : Server) → Keeps P R (f s)) → Keeps P R (get >>= f)
  get_bind-Keeps k = record { kept = λ s p. (k s).kept s p }

  pub pure-Keeps : (a : A) → R a → Keeps P R (pure a)
  pure-Keeps a h = record { kept = λ s p. (h, p) }

  pub raise-Keeps : (e : Error) → Keeps P R (raise e)
  raise-Keeps e = record { kept = λ s p. (tt, p) }

module _ {P : Server → Type 0} where
  pub lift-Safe : {A : Type 0} (r : Result A) → Safe P (lift r)
  lift-Safe r = lift-Keeps r (Post-Whatever r)

  pub skip-Safe : Safe P skip
  skip-Safe = pure-Keeps tt tt

  pub get-Keeps : {Q : Server → Type 0} → ((s : Server) → P s → Q s) → Keeps P Q get
  get-Keeps h = record { kept = λ s p. (h s p, p) }

  -- A change of the state that no program part fails in.
  pub step-Safe :
      {f : Server → Server} → ((s : Server) → P s → P (f s)) → Safe P (λ s. (ok tt, f s))
  step-Safe h = record { kept = λ s p. (tt, h s p) }

  pub when-Safe : (b : Bool) {m : M (Unit {0})} → (b ≡ true → Safe P m) → Safe P (when b m)
  when-Safe b h = if-Keeps b h (λ _. skip-Safe)

  pub for_each-Safe :
      {A : Type 0} (l : List A) {body : A → M (Unit {0})}
      → ((a : A) → Safe P (body a))
      → Safe P (for_each l body)
  for_each-Safe [] h = skip-Safe
  for_each-Safe (a ∷ l) h = then-Keeps (h a) (for_each-Safe l h)
