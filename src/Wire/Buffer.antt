-- ===== src/Wire/Buffer.antt =====
-- `util::streambuf` of the library shan is not part of the repository: it is the interface
-- `StreamBuf`, and decoders and encoders run on whatever meets it.
use shan_mqtt_broker.Base.{
  ℕ, ◌+◌, ◌*◌, ◌<◌, ◌≡◌, refl, ◌∙◌, Option, none, some, [], ◌∷◌, ◌++◌, Bytes, length, List, arith,
  append-nil, append_assoc,
}
use shan_mqtt_broker.Outcome.{Result, ok, err, stuck, not_enough}
use shan_mqtt_broker.Wire.Decoder.{
  Decoder, ret, throw, stop, read_uint8, read_uint16, read, in_size, take, drop, run_bytes, Write,
  write_uint8, write_uint16, write, written,
}

-- `none` is a `not_enough_error`. `unread` is what was written and not yet read, `marked` what was
-- unread at the last `mark`; the laws are the buffer's documented behaviour as a queue of bytes.
pub record StreamBuf : Type 1 where
  pub Buf : Type 0
  pub unread : Buf → Bytes
  pub marked : Buf → Bytes
  pub size_call : Buf → ℕ
  pub uint8_call : Buf → Option ℕ × Buf
  pub uint16_call : Buf → Option ℕ × Buf
  pub read_call : ℕ → Buf → Bytes × Buf
  pub mark : Buf → Buf
  pub reset : Buf → Buf
  pub write_call : Write → Buf → Buf
  pub size_lem : (b : Buf) → size_call b ≡ length (unread b)
  pub uint8_some :
      (b : Buf) (x : ℕ) (xs : Bytes)
      → unread b ≡ x ∷ xs
      → ((uint8_call b).0 ≡ some x) × (unread (uint8_call b).1 ≡ xs)
  pub uint8_none : (b : Buf) → unread b ≡ [] → (uint8_call b).0 ≡ none
  pub uint16_some :
      (b : Buf) (x y : ℕ) (xs : Bytes)
      → unread b ≡ x ∷ (y ∷ xs)
      → ((uint16_call b).0 ≡ some (x * 256 + y)) × (unread (uint16_call b).1 ≡ xs)
  pub uint16_none : (b : Buf) → length (unread b) < 2 → (uint16_call b).0 ≡ none
  pub read_lem :
      (n : ℕ) (b : Buf)
      → ((read_call n b).0 ≡ take n (unread b)) × (unread (read_call n b).1 ≡ drop n (unread b))
  pub marked-uint8 : (b : Buf) → marked (uint8_call b).1 ≡ marked b
  pub marked-uint16 : (b : Buf) → marked (uint16_call b).1 ≡ marked b
  pub marked-read : (n : ℕ) (b : Buf) → marked (read_call n b).1 ≡ marked b
  pub unread-mark : (b : Buf) → (unread (mark b) ≡ unread b) × (marked (mark b) ≡ unread b)
  pub unread-reset : (b : Buf) → unread (reset b) ≡ marked b
  pub unread-write : (w : Write) (b : Buf) → unread (write_call w b) ≡ unread b ++ written (w ∷ [])

written_step :
    (w : Write) (ws : List Write) (xs : Bytes)
    → (xs ++ written (w ∷ [])) ++ written ws ≡ xs ++ written (w ∷ ws)
written_step (write_uint8 x) ws xs = simp append_assoc
written_step (write_uint16 x) ws xs = simp append_assoc
written_step (write ys) ws xs = simp (append_assoc, append-nil)

module _ (S : StreamBuf) where
  open S use {Buf, unread, marked, size_call, uint8_call, uint16_call, read_call}

  abbrev pub on_some : {A : Type 0} → Option ℕ × Buf → (ℕ → Buf → Result A × Buf) → Result A × Buf
  on_some (none, b) k = (err not_enough, b)
  on_some (some x, b) k = k x b

  -- The program on a buffer: how it ends, and the buffer that it leaves.
  unfoldable pub run : {A : Type 0} → Decoder A → Buf → Result A × Buf
  run (ret a) b = (ok a, b)
  run (throw e) b = (err e, b)
  run stop b = (stuck, b)
  run (read_uint8 k) b = on_some (uint8_call b) (λ x b'. run (k x) b')
  run (read_uint16 k) b = on_some (uint16_call b) (λ x b'. run (k x) b')
  run (read n k) b = run (k (read_call n b).0) (read_call n b).1
  run (in_size k) b = run (k (size_call b)) b

  -- The run ends as the run on the unread bytes does, and leaves the same bytes.
  abbrev pub Agrees : {A : Type 0} → Result A × Buf → Result (A × Bytes) → Type 0
  Agrees (r, b) (ok (a, xs)) = (r ≡ ok a) × (unread b ≡ xs)
  Agrees (r, b) (err e) = r ≡ err e
  Agrees (r, b) stuck = r ≡ stuck

  -- On every lawful buffer a decoder ends with the result that it has on the list of the unread
  -- bytes, and leaves the same bytes unread.
  pub run-run_bytes :
      {A : Type 0} (d : Decoder A) (b : Buf) (xs : Bytes)
      → unread b ≡ xs
      → Agrees (run d b) (run_bytes d xs)
  unfolding run
  run-run_bytes (ret a) b xs h = (refl, h)
  run-run_bytes (throw e) b xs h = refl
  run-run_bytes stop b xs h = refl
  run-run_bytes (read_uint8 k) b [] h = rw (S.uint8_none b h) refl
  run-run_bytes (read_uint8 k) b (x ∷ xs) h =
      let (e, r) = S.uint8_some b x xs h in rw e (run-run_bytes (k x) _ xs r)
  run-run_bytes (read_uint16 k) b [] h = rw (S.uint16_none b (rw h (omega arith))) refl
  run-run_bytes (read_uint16 k) b (x ∷ []) h = rw (S.uint16_none b (rw h (omega arith))) refl
  run-run_bytes (read_uint16 k) b (x ∷ (y ∷ xs)) h =
      let (e, r) = S.uint16_some b x y xs h in rw e (run-run_bytes (k (x * 256 + y)) _ xs r)
  run-run_bytes (read n k) b xs h =
      let (e, r) = S.read_lem n b in
      rw (e, h) (run-run_bytes (k (take n xs)) _ (drop n xs) (rw (r, h) refl))
  run-run_bytes (in_size k) b xs h = rw (S.size_lem b, h) (run-run_bytes (k (length xs)) b xs h)

  marked-on_some :
      {A : Type 0} (p : Option ℕ × Buf) (k : ℕ → Buf → Result A × Buf) (xs : Bytes)
      → marked p.1 ≡ xs
      → ((x : ℕ) (b : Buf) → marked (k x b).1 ≡ marked b)
      → marked (on_some p k).1 ≡ xs
  marked-on_some (none, b) k xs h keep = h
  marked-on_some (some x, b) k xs h keep = keep x b ∙ h

  pub marked-run : {A : Type 0} (d : Decoder A) (b : Buf) → marked (run d b).1 ≡ marked b
  unfolding run
  marked-run (ret a) b = refl
  marked-run (throw e) b = refl
  marked-run stop b = refl
  marked-run (read_uint8 k) b =
      marked-on_some (uint8_call b) _ _ (S.marked-uint8 b) (λ x b'. marked-run (k x) b')
  marked-run (read_uint16 k) b =
      marked-on_some (uint16_call b) _ _ (S.marked-uint16 b) (λ x b'. marked-run (k x) b')
  marked-run (read n k) b = marked-run (k (read_call n b).0) _ ∙ S.marked-read n b
  marked-run (in_size k) b = marked-run (k (size_call b)) b

  unfoldable pub write_all : List Write → Buf → Buf
  write_all [] b = b
  write_all (w ∷ ws) b = write_all ws (S.write_call w b)

  pub unread-write_all :
      (ws : List Write) (b : Buf) → unread (write_all ws b) ≡ unread b ++ written ws
  unfolding write_all
  unread-write_all [] b = rw append-nil
  unread-write_all (w ∷ ws) b =
      unread-write_all ws (S.write_call w b)
      ∙ rw (S.unread-write w b) (written_step w ws (unread b))
