-- ===== src/Outcome.antt =====
-- The outcomes of the C++ functions: a value, or an exception.
use Prim.Native.String.{String}
use shan_mqtt_broker.Base.{Bool, true, false}

pub data Error : Type 0 where
  -- `mqtt_error` (exception.h), with its message
  mqtt_error : String → Error
  -- `std::runtime_error`, with its message
  runtime_error : String → Error
  -- `util::not_enough_error`, which a read of the stream buffer throws
  not_enough : Error
  -- `std::out_of_range`, which `at` throws
  out_of_range : Error

-- `stuck` is no outcome of the program: a loop of the model ran out of fuel.
pub data Result {ℓ} (A : Type ℓ) : Type ℓ where
  ok : A → Result A
  err : Error → Result A
  stuck : Result A

infixl 5 ◌>>=◌ ◌>>◌
abbrev pub ◌>>=◌ {ℓ κ} : {A : Type ℓ} {B : Type κ} → Result A → (A → Result B) → Result B
ok a >>= f = f a
err e >>= f = err e
stuck >>= f = stuck

abbrev pub ◌>>◌ {ℓ} : {B : Type ℓ} → Result (Unit {0}) → Result B → Result B
m >> k = m >>= λ _. k

-- `if (bad) throw e;`
abbrev pub throw_if : Bool → Error → Result (Unit {0})
throw_if true e = err e
throw_if false e = ok tt
