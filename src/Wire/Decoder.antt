-- ===== src/Wire/Decoder.antt =====
-- What a decoding function asks of the stream buffer, as a program of its calls. The buffer itself is
-- not part of the repository: `Wire.Buffer` runs such a program on one.
use shan_mqtt_broker.Base.{
  ℕ, zero, suc, ◌+◌, ◌*◌, ◌/◌, ◌%◌, Bool, true, false, [], ◌∷◌, ◌++◌, Bytes, length, List,
}
use shan_mqtt_broker.Outcome.{Error, Result, ok, err, stuck, not_enough}

pub data Decoder (A : Type 0) : Type 0 where
  -- `return a;`
  ret : A → Decoder A
  -- `throw e;`
  throw : Error → Decoder A
  -- a loop of the model ran out of fuel
  stop : Decoder A
  -- the reading calls of `util::streambuf`
  read_uint8 : (ℕ → Decoder A) → Decoder A
  read_uint16 : (ℕ → Decoder A) → Decoder A
  read : ℕ → (Bytes → Decoder A) → Decoder A
  in_size : (ℕ → Decoder A) → Decoder A

infixl 5 ◌>>=◌ ◌>>◌
abbrev pub ◌>>=◌ : {A B : Type 0} → Decoder A → (A → Decoder B) → Decoder B
ret a >>= f = f a
throw e >>= f = throw e
stop >>= f = stop
read_uint8 k >>= f = read_uint8 (λ x. k x >>= f)
read_uint16 k >>= f = read_uint16 (λ x. k x >>= f)
read n k >>= f = read n (λ xs. k xs >>= f)
in_size k >>= f = in_size (λ n. k n >>= f)

abbrev pub ◌>>◌ : {B : Type 0} → Decoder (Unit {0}) → Decoder B → Decoder B
m >> k = m >>= λ _. k

abbrev pub get_uint8 : Decoder ℕ
get_uint8 = read_uint8 ret

abbrev pub get_uint16 : Decoder ℕ
get_uint16 = read_uint16 ret

abbrev pub get_bytes : ℕ → Decoder Bytes
get_bytes n = read n ret

abbrev pub get_in_size : Decoder ℕ
get_in_size = in_size ret

-- `if (bad) throw e;`
abbrev pub throw_if : Bool → Error → Decoder (Unit {0})
throw_if true e = throw e
throw_if false e = ret tt

abbrev pub lift : {A : Type 0} → Result A → Decoder A
lift (ok a) = ret a
lift (err e) = throw e
lift stuck = stop

abbrev pub take : ℕ → Bytes → Bytes
take zero xs = []
take (suc n) [] = []
take (suc n) (x ∷ xs) = x ∷ take n xs

abbrev pub drop : ℕ → Bytes → Bytes
drop zero xs = xs
drop (suc n) [] = []
drop (suc n) (x ∷ xs) = drop n xs

-- The program on the bytes that wait in the buffer; a 16-bit number has its high byte first.
abbrev pub run_bytes : {A : Type 0} → Decoder A → Bytes → Result (A × Bytes)
run_bytes (ret a) xs = ok (a, xs)
run_bytes (throw e) xs = err e
run_bytes stop xs = stuck
run_bytes (read_uint8 k) [] = err not_enough
run_bytes (read_uint8 k) (x ∷ xs) = run_bytes (k x) xs
run_bytes (read_uint16 k) [] = err not_enough
run_bytes (read_uint16 k) (x ∷ []) = err not_enough
run_bytes (read_uint16 k) (x ∷ (y ∷ xs)) = run_bytes (k (x * 256 + y)) xs
run_bytes (read n k) xs = run_bytes (k (take n xs)) (drop n xs)
run_bytes (in_size k) xs = run_bytes (k (length xs)) xs

-- The writing calls of `util::streambuf`, and the bytes that they append.
pub data Write : Type 0 where
  write_uint8 : ℕ → Write
  write_uint16 : ℕ → Write
  write : Bytes → Write

abbrev pub written : List Write → Bytes
written [] = []
written (write_uint8 x ∷ ws) = x ∷ written ws
written (write_uint16 x ∷ ws) = x / 256 ∷ (x % 256 ∷ written ws)
written (write xs ∷ ws) = xs ++ written ws
