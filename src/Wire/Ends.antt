-- ===== src/Wire/Ends.antt =====
-- Decoders that never run out of fuel.
use shan_mqtt_broker.Base.{none, some, Option, ℕ, Bool, true, false, ◌≢◌, Bytes, if◌then◌else◌}
use shan_mqtt_broker.Outcome.{Error, Result, stuck}
use shan_mqtt_broker.Wire.Decoder.{
  Decoder, ret, throw, stop, read_uint8, read_uint16, read, in_size, throw_if, ◌>>=◌,
}
use shan_mqtt_broker.Wire.Buffer.{on_some, StreamBuf, run}

-- Whatever the buffer answers, the program does not stop for lack of fuel.
abbrev pub Ends : {A : Type 0} → Decoder A → Type 0
Ends (ret a) = Unit {0}
Ends (throw e) = Unit {0}
Ends stop = ⊥
Ends (read_uint8 k) = (x : ℕ) → Ends (k x)
Ends (read_uint16 k) = (x : ℕ) → Ends (k x)
Ends (read n k) = (xs : Bytes) → Ends (k xs)
Ends (in_size k) = (n : ℕ) → Ends (k n)

pub Ends->>= :
    {A B : Type 0} (d : Decoder A) (f : A → Decoder B)
    → Ends d
    → ((a : A) → Ends (f a))
    → Ends (d >>= f)
Ends->>= (ret a) f e g = g a
Ends->>= (throw x) f e g = tt
Ends->>= stop f e g = e
Ends->>= (read_uint8 k) f e g = λ x. Ends->>= (k x) f (e x) g
Ends->>= (read_uint16 k) f e g = λ x. Ends->>= (k x) f (e x) g
Ends->>= (read n k) f e g = λ xs. Ends->>= (k xs) f (e xs) g
Ends->>= (in_size k) f e g = λ n. Ends->>= (k n) f (e n) g

pub Ends-throw_if :
    {A : Type 0} (b : Bool) (x : Error) (f : Unit {0} → Decoder A)
    → Ends (f tt)
    → Ends (throw_if b x >>= f)
Ends-throw_if true x f e = tt
Ends-throw_if false x f e = e

pub Ends-if :
    {A : Type 0} (b : Bool) (d e : Decoder A) → Ends d → Ends e → Ends (if b then d else e)
Ends-if true d e p q = p
Ends-if false d e p q = q

module _ (S : StreamBuf) where
  open S use {Buf}

  on_some-Ends :
      {A : Type 0} (p : Option ℕ × Buf) (k : ℕ → Buf → Result A × Buf)
      → ((x : ℕ) (b : Buf) → (k x b).0 ≢ stuck)
      → (on_some S p k).0 ≢ stuck
  on_some-Ends (none, b) k e h = cc
  on_some-Ends (some x, b) k e h = e x b h

  pub Ends-run : {A : Type 0} (d : Decoder A) (b : Buf) → Ends d → (run S d b).0 ≢ stuck
  unfolding run
  Ends-run (ret a) b e h = cc
  Ends-run (throw x) b e h = cc
  Ends-run stop b e h = absurd e
  Ends-run (read_uint8 k) b e h =
      on_some-Ends (S.uint8_call b) (λ x b'. run S (k x) b') (λ x b'. Ends-run (k x) b' (e x)) h
  Ends-run (read_uint16 k) b e h =
      on_some-Ends (S.uint16_call b) (λ x b'. run S (k x) b') (λ x b'. Ends-run (k x) b' (e x)) h
  Ends-run (read n k) b e h =
      Ends-run (k (S.read_call n b).0) (S.read_call n b).1 (e (S.read_call n b).0) h
  Ends-run (in_size k) b e h = Ends-run (k (S.size_call b)) b (e (S.size_call b)) h
