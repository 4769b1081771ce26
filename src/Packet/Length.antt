-- ===== src/Packet/Length.antt =====
-- The remaining length (packet/fixed_header.cpp) through the encoder and back.
use shan_mqtt_broker.Base.{
  ℕ, suc, ◌+◌, ◌*◌, ◌/◌, ◌%◌, ◌^◌, ◌≤◌, ◌<◌, ◌≡◌, refl, ◌∙◌, List, [], ◌∷◌, ◌++◌, Bytes, arith, ◌⊎◌,
  inl, inr,
}
use native.Mathlib.Decide.{dec_lt}
use shan_mqtt_broker.Outcome.{mqtt_error, ok, err}
use shan_mqtt_broker.Wire.Decoder.{run_bytes, written, Write, write_uint8}
use shan_mqtt_broker.Packet.Bits.{low_bits, top_bit, set_top_bit}
use shan_mqtt_broker.Packet.FixedHeader.{
  malformed_length, decode_length_loop, decode_remaining_length, encode_length_loop,
  encode_remaining_length,
}

-- The decoder's loop on a byte with its top bit set, and on a last one.
inner_byte :
    (k g acc shift acc' shift' : ℕ) (rest : Bytes)
    → g < 128
    → shift' ≤ 21
    → shift' ≡ shift + 7
    → acc' ≡ (acc + g * 2 ^ shift) % 2 ^ 32
    → run_bytes (decode_length_loop (suc k) acc shift) ((g + 128) ∷ rest)
      ≡ run_bytes (decode_length_loop k acc' shift') rest
unfolding decode_length_loop
inner_byte k g acc shift acc' shift' rest hg hs es ea =
    ground (arith, low_bits (g + 128), top_bit (g + 128))

last_byte :
    (k g acc shift acc' : ℕ) (rest : Bytes)
    → g < 128
    → shift + 7 ≤ 21
    → acc' ≡ (acc + g * 2 ^ shift) % 2 ^ 32
    → run_bytes (decode_length_loop (suc k) acc shift) (g ∷ rest) ≡ ok (acc', rest)
unfolding decode_length_loop
last_byte k g acc shift acc' rest hg hs ea = ground (arith, low_bits g, top_bit g)

-- The fourth byte is refused, whatever it is.
fourth_byte :
    (k g acc : ℕ) (rest : Bytes)
    → run_bytes (decode_length_loop (suc k) acc 21) (g ∷ rest) ≡ err malformed_length
unfolding decode_length_loop
fourth_byte k g acc rest = refl

encode_last : (k n : ℕ) → n < 128 → encode_length_loop (suc k) n ≡ ok (write_uint8 (n % 128) ∷ [])
unfolding encode_length_loop
encode_last k n h = ground arith

encode_more :
    (k n : ℕ) (ws : List Write)
    → 128 ≤ n
    → encode_length_loop k (n / 128) ≡ ok ws
    → encode_length_loop (suc k) n ≡ ok (write_uint8 (n % 128 + 128) ∷ ws)
unfolding encode_length_loop
encode_more k n ws h e = ground (arith, set_top_bit (n % 128))

-- What is written decodes to `n` before whatever follows it.
pub record ReadsBack (n : ℕ) : Type 0 where
  pub writes : List Write
  pub encoded : encode_length_loop 4 n ≡ ok writes
  pub decoded :
      (rest : Bytes) → run_bytes decode_remaining_length (written writes ++ rest) ≡ ok (n, rest)

one_byte : (n : ℕ) → n < 128 → ReadsBack n
unfolding decode_remaining_length
one_byte n h = record {
  writes = _;
  encoded = encode_last 3 n h;
  decoded = λ rest. last_byte 3 (n % 128) 0 0 n rest (omega arith) (omega arith) (omega arith);
}

two_bytes : (n : ℕ) → 128 ≤ n → n < 128 * 128 → ReadsBack n
unfolding decode_remaining_length
two_bytes n l h = record {
  writes = _;
  encoded = encode_more 3 n _ l (encode_last 2 (n / 128) (omega arith));
  decoded = λ rest.
      inner_byte 3 (n % 128) 0 0 (n % 128) 7 _ (omega arith) (omega arith) (omega arith)
        (omega arith)
      ∙ last_byte 2 (n / 128 % 128) (n % 128) 7 n rest (omega arith) (omega arith) (omega arith);
}

three_bytes : (n : ℕ) → 128 * 128 ≤ n → n < 2 ^ 21 → ReadsBack n
unfolding decode_remaining_length
three_bytes n l h = record {
  writes = _;
  encoded =
      encode_more 3 n _ (omega arith)
        (encode_more 2 (n / 128) _ (omega arith) (encode_last 1 (n / 128 / 128) (omega arith)));
  decoded = λ rest.
      inner_byte 3 (n % 128) 0 0 (n % 128) 7 _ (omega arith) (omega arith) (omega arith)
        (omega arith)
      ∙ inner_byte 2 (n / 128 % 128) (n % 128) 7 (n % 16384) 14 _ (omega arith) (omega arith)
          (omega arith) (omega arith)
      ∙ last_byte 1 (n / 128 / 128 % 128) (n % 16384) 14 n rest (omega arith) (omega arith)
          (omega arith);
}

pub ReadsBack_below : (n : ℕ) → n < 2 ^ 21 → ReadsBack n
ReadsBack_below n h = elim (dec_lt n 128) [
  | yes a ↦ one_byte n a
  | no a ↦ elim (dec_lt n (128 * 128)) [
    | yes b ↦ two_bytes n (omega arith) b
    | no b ↦ three_bytes n (omega arith) h
  ]
]

four_writes :
    (n : ℕ)
    → 2 ^ 21 ≤ n
    → n ≤ 0x0FFFFFFF
    → (ws : List Write) × (encode_length_loop 4 n ≡ ok ws)
      × ((rest : Bytes)
          → run_bytes decode_remaining_length (written ws ++ rest) ≡ err malformed_length)
unfolding decode_remaining_length
four_writes n l h = (
  _,
  encode_more 3 n _ (omega arith) (
      encode_more 2 (n / 128) _ (omega arith) (
        encode_more 1 (n / 128 / 128) _ (omega arith)
          (encode_last 0 (n / 128 / 128 / 128) (omega arith)))),
  λ rest.
      inner_byte 3 (n % 128) 0 0 (n % 128) 7 _ (omega arith) (omega arith) (omega arith)
        (omega arith)
      ∙ inner_byte 2 (n / 128 % 128) (n % 128) 7 (n % 16384) 14 _ (omega arith) (omega arith)
          (omega arith) (omega arith)
      ∙ inner_byte 1 (n / 128 / 128 % 128) (n % 16384) 14 (n % 2097152) 21 _ (omega arith)
          (omega arith) (omega arith) (omega arith)
      ∙ fourth_byte 0 (n / 128 / 128 / 128 % 128) (n % 2097152) rest,
)

-- A remaining length below 2 ^ 21 is written, and reads back before whatever follows it.
pub decode-encode_length :
    (n : ℕ) (rest : Bytes)
    → n < 2 ^ 21
    → (ws : List Write) × (encode_remaining_length n ≡ ok ws)
      × (run_bytes decode_remaining_length (written ws ++ rest) ≡ ok (n, rest))
unfolding encode_remaining_length
decode-encode_length n rest h =
    let r = ReadsBack_below n h in (r.writes, ground (arith, r.encoded), r.decoded rest)

-- A remaining length from 2 ^ 21 to 2 ^ 28 - 1 is written, since MQTT allows it four bytes, and the
-- decoder refuses what was written; a longer one is refused by the encoder.
pub long_length_refused :
    (n : ℕ) (rest : Bytes)
    → 2 ^ 21 ≤ n
    → ((n ≤ 0x0FFFFFFF)
        × (ws : List Write) × (encode_remaining_length n ≡ ok ws)
        × (run_bytes decode_remaining_length (written ws ++ rest) ≡ err malformed_length))
      ⊎ ((0x0FFFFFFF < n)
          × (encode_remaining_length n ≡ err (mqtt_error "too big remaining length.")))
unfolding encode_remaining_length
long_length_refused n rest l = elim (dec_lt 0x0FFFFFFF n) [
  | yes a ↦ inr (a, ground arith)
  | no a ↦
      let (ws, e, d) = four_writes n l (omega arith) in
      inl (omega arith, ws, ground (arith, e), d rest)
]
