-- ===== src/Wire/Yields.antt =====
-- What holds of the values that a decoder returns, whatever the buffer answers.
use shan_mqtt_broker.Base.{
  none, some, Option, ℕ, ◌≡◌, Bool, true, false, Bytes, if◌then◌else◌, refl,
}
use shan_mqtt_broker.Outcome.{Error, Result, ok, err, stuck}
use shan_mqtt_broker.Wire.Decoder.{
  Decoder, ret, throw, stop, read_uint8, read_uint16, read, in_size, throw_if, ◌>>=◌,
}
use shan_mqtt_broker.Wire.Buffer.{on_some, StreamBuf, run}

abbrev pub Yields : {A : Type 0} → (A → Type 0) → Decoder A → Type 0
Yields Q (ret a) = Q a
Yields Q (throw e) = Unit {0}
Yields Q stop = Unit {0}
Yields Q (read_uint8 k) = (x : ℕ) → Yields Q (k x)
Yields Q (read_uint16 k) = (x : ℕ) → Yields Q (k x)
Yields Q (read n k) = (xs : Bytes) → Yields Q (k xs)
Yields Q (in_size k) = (n : ℕ) → Yields Q (k n)

abbrev pub Any : {A : Type 0} → A → Type 0
Any a = Unit {0}

pub Yields-Any : {A : Type 0} (d : Decoder A) → Yields Any d
Yields-Any (ret a) = tt
Yields-Any (throw e) = tt
Yields-Any stop = tt
Yields-Any (read_uint8 k) = λ x. Yields-Any (k x)
Yields-Any (read_uint16 k) = λ x. Yields-Any (k x)
Yields-Any (read n k) = λ xs. Yields-Any (k xs)
Yields-Any (in_size k) = λ n. Yields-Any (k n)

module _ {A B : Type 0} (Q : A → Type 0) (R : B → Type 0) where
  pub Yields->>= :
      (d : Decoder A) (f : A → Decoder B)
      → Yields Q d
      → ((a : A) → Q a → Yields R (f a))
      → Yields R (d >>= f)
  Yields->>= (ret a) f y k = k a y
  Yields->>= (throw e) f y k = tt
  Yields->>= stop f y k = tt
  Yields->>= (read_uint8 d) f y k = λ x. Yields->>= (d x) f (y x) k
  Yields->>= (read_uint16 d) f y k = λ x. Yields->>= (d x) f (y x) k
  Yields->>= (read n d) f y k = λ xs. Yields->>= (d xs) f (y xs) k
  Yields->>= (in_size d) f y k = λ n. Yields->>= (d n) f (y n) k

module _ {B : Type 0} (R : B → Type 0) where
  -- Nothing has to be known of what the first part returns.
  pub Yields-after :
      {A : Type 0} (d : Decoder A) (f : A → Decoder B)
      → ((a : A) → Yields R (f a))
      → Yields R (d >>= f)
  Yields-after d f k = Yields->>= Any R d f (Yields-Any d) (λ a _. k a)

  pub Yields-throw_if :
      (b : Bool) (e : Error) (f : Unit {0} → Decoder B)
      → (b ≡ false → Yields R (f tt))
      → Yields R (throw_if b e >>= f)
  Yields-throw_if true e f k = tt
  Yields-throw_if false e f k = k refl

  pub Yields-if :
      (b : Bool) (d e : Decoder B)
      → (b ≡ true → Yields R d)
      → (b ≡ false → Yields R e)
      → Yields R (if b then d else e)
  Yields-if true d e k l = k refl
  Yields-if false d e k l = l refl

module _ (S : StreamBuf) {A : Type 0} (Q : A → Type 0) where
  open S use {Buf}

  -- The value that a run ends with.
  abbrev pub Returned : Result A → Type 0
  Returned (ok a) = Q a
  Returned (err e) = Unit {0}
  Returned stuck = Unit {0}

  on_some-Returned :
      (p : Option ℕ × Buf) (k : ℕ → Buf → Result A × Buf)
      → ((x : ℕ) (b : Buf) → Returned (k x b).0)
      → Returned (on_some S p k).0
  on_some-Returned (none, b) k h = tt
  on_some-Returned (some x, b) k h = h x b

  pub Yields-run : (d : Decoder A) (b : Buf) → Yields Q d → Returned (run S d b).0
  unfolding run
  Yields-run (ret a) b y = y
  Yields-run (throw e) b y = tt
  Yields-run stop b y = tt
  Yields-run (read_uint8 k) b y =
      on_some-Returned (S.uint8_call b) (λ x b'. run S (k x) b') (λ x b'. Yields-run (k x) b' (y x))
  Yields-run (read_uint16 k) b y =
      on_some-Returned (S.uint16_call b) (λ x b'. run S (k x) b')
        (λ x b'. Yields-run (k x) b' (y x))
  Yields-run (read n k) b y =
      Yields-run (k (S.read_call n b).0) (S.read_call n b).1 (y (S.read_call n b).0)
  Yields-run (in_size k) b y = Yields-run (k (S.size_call b)) b (y (S.size_call b))
