-- ===== src/Wire/Bind.antt =====
-- How runs of decoders compose.
use shan_mqtt_broker.Base.{false, true, Bool, ap, ◌+◌, ◌*◌, ◌≡◌, refl, [], ◌∷◌, Bytes, length}
use shan_mqtt_broker.Outcome.{Error, Result, ok, err, stuck}
use shan_mqtt_broker.Wire.Decoder.{
  Decoder, ret, throw, stop, read_uint8, read_uint16, read, in_size, take, drop, run_bytes, ◌>>=◌,
  lift, throw_if,
}

abbrev pub then_run : {A B : Type 0} → Result (A × Bytes) → (A → Decoder B) → Result (B × Bytes)
then_run (ok (a, rest)) f = run_bytes (f a) rest
then_run (err e) f = err e
then_run stuck f = stuck

-- A decoder that goes on runs the second part where the first one ended.
pub run_bytes->>= :
    {A B : Type 0} (d : Decoder A) (f : A → Decoder B) (xs : Bytes)
    → run_bytes (d >>= f) xs ≡ then_run (run_bytes d xs) f
run_bytes->>= (ret a) f xs = refl
run_bytes->>= (throw e) f xs = refl
run_bytes->>= stop f xs = refl
run_bytes->>= (read_uint8 k) f [] = refl
run_bytes->>= (read_uint8 k) f (x ∷ xs) = run_bytes->>= (k x) f xs
run_bytes->>= (read_uint16 k) f [] = refl
run_bytes->>= (read_uint16 k) f (x ∷ []) = refl
run_bytes->>= (read_uint16 k) f (x ∷ (y ∷ xs)) = run_bytes->>= (k (x * 256 + y)) f xs
run_bytes->>= (read n k) f xs = run_bytes->>= (k (take n xs)) f (drop n xs)
run_bytes->>= (in_size k) f xs = run_bytes->>= (k (length xs)) f xs

pub run_ok :
    {A B : Type 0} (d : Decoder A) (f : A → Decoder B) (xs : Bytes) {a : A} {rest : Bytes}
    → run_bytes d xs ≡ ok (a, rest)
    → run_bytes (d >>= f) xs ≡ run_bytes (f a) rest
run_ok d f xs h = rw (run_bytes->>= d f xs, h) refl

pub run_err :
    {A B : Type 0} (d : Decoder A) (f : A → Decoder B) (xs : Bytes) {e : Error}
    → run_bytes d xs ≡ err e
    → run_bytes (d >>= f) xs ≡ err e
run_err d f xs h = rw (run_bytes->>= d f xs, h) refl

pub run_lift :
    {A B : Type 0} (r : Result A) (f : A → Decoder B) (xs : Bytes) {a : A}
    → r ≡ ok a
    → run_bytes (lift r >>= f) xs ≡ run_bytes (f a) xs
run_lift r f xs h = ap (λ t. run_bytes (lift t >>= f) xs) h

-- A test that does not throw.
pub run_passed :
    {B : Type 0} (b : Bool) (e : Error) (f : Unit {0} → Decoder B) (xs : Bytes)
    → b ≡ false
    → run_bytes (throw_if b e >>= f) xs ≡ run_bytes (f tt) xs
run_passed b e f xs h = ap (λ t. run_bytes (throw_if t e >>= f) xs) h

pub run_failed :
    {B : Type 0} (b : Bool) (e : Error) (f : Unit {0} → Decoder B) (xs : Bytes)
    → b ≡ true
    → run_bytes (throw_if b e >>= f) xs ≡ err e
run_failed b e f xs h = ap (λ t. run_bytes (throw_if t e >>= f) xs) h
