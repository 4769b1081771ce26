-- ===== src/Tests/ByteQueue.antt =====
-- A stream buffer as two lists of bytes: what is unread, and what was unread at the last mark.
use shan_mqtt_broker.Base.{
  ◌<◌, ℕ, ◌+◌, ◌*◌, ◌≡◌, refl, Option, none, some, [], ◌∷◌, ◌++◌, Bytes, length, arith,
}
use shan_mqtt_broker.Wire.Decoder.{take, drop, written}
use shan_mqtt_broker.Wire.Buffer.{StreamBuf}

abbrev pub Queue : Type 0
Queue = Bytes × Bytes

abbrev pub queue_uint8 : Queue → Option ℕ × Queue
queue_uint8 ([], m) = (none, ([], m))
queue_uint8 (x ∷ xs, m) = (some x, (xs, m))

abbrev pub queue_uint16 : Queue → Option ℕ × Queue
queue_uint16 ([], m) = (none, ([], m))
queue_uint16 (x ∷ [], m) = (none, (x ∷ [], m))
queue_uint16 (x ∷ (y ∷ xs), m) = (some (x * 256 + y), (xs, m))

pub uint8_front :
    (b : Queue) (x : ℕ) (xs : Bytes)
    → b.0 ≡ x ∷ xs
    → ((queue_uint8 b).0 ≡ some x) × ((queue_uint8 b).1.0 ≡ xs)
uint8_front ([], m) x xs h = cc
uint8_front (y ∷ ys, m) x xs h = (cc, cc)

pub uint8_empty : (b : Queue) → b.0 ≡ [] → (queue_uint8 b).0 ≡ none
uint8_empty ([], m) h = refl
uint8_empty (y ∷ ys, m) h = cc

pub uint16_front :
    (b : Queue) (x y : ℕ) (xs : Bytes)
    → b.0 ≡ x ∷ (y ∷ xs)
    → ((queue_uint16 b).0 ≡ some (x * 256 + y)) × ((queue_uint16 b).1.0 ≡ xs)
uint16_front ([], m) x y xs h = cc
uint16_front (u ∷ [], m) x y xs h = cc
uint16_front (u ∷ (v ∷ ys), m) x y xs h = (cc, cc)

pub uint16_short : (b : Queue) → length (b.0) < 2 → (queue_uint16 b).0 ≡ none
uint16_short ([], m) h = refl
uint16_short (u ∷ [], m) h = refl
uint16_short (u ∷ (v ∷ ys), m) h = absurd (omega arith)

pub uint8_keeps : (b : Queue) → (queue_uint8 b).1.1 ≡ b.1
uint8_keeps ([], m) = refl
uint8_keeps (y ∷ ys, m) = refl

pub uint16_keeps : (b : Queue) → (queue_uint16 b).1.1 ≡ b.1
uint16_keeps ([], m) = refl
uint16_keeps (u ∷ [], m) = refl
uint16_keeps (u ∷ (v ∷ ys), m) = refl

abbrev pub byte_queue : StreamBuf
byte_queue = record {
  Buf = Queue;
  unread = λ b. b.0;
  marked = λ b. b.1;
  size_call = λ b. length (b.0);
  uint8_call = queue_uint8;
  uint16_call = queue_uint16;
  read_call = λ n b. (take n (b.0), (drop n (b.0), b.1));
  mark = λ b. (b.0, b.0);
  reset = λ b. (b.1, b.1);
  write_call = λ w b. (b.0 ++ written (w ∷ []), b.1);
  size_lem = λ b. refl;
  uint8_some = uint8_front;
  uint8_none = uint8_empty;
  uint16_some = uint16_front;
  uint16_none = uint16_short;
  read_lem = λ n b. (refl, refl);
  marked-uint8 = uint8_keeps;
  marked-uint16 = uint16_keeps;
  marked-read = λ n b. refl;
  unread-mark = λ b. (refl, refl);
  unread-reset = λ b. refl;
  unread-write = λ w b. refl;
}
