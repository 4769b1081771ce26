-- ===== src/Packet/Utf8.antt =====
-- `decode_string` and `encode_string` (packet/fixed_header.cpp) on well-formed UTF-8.
use shan_mqtt_broker.Base.{
  ℕ, zero, suc, ◌+◌, ◌*◌, ◌/◌, ◌%◌, ◌≤◌, ◌<◌, ◌≡◌, ap, ◌∙◌, List, [], ◌∷◌, ◌++◌, Bytes, length,
  append_assoc, append-nil, arith,
}
use shan_mqtt_broker.Outcome.{ok}
use shan_mqtt_broker.Wire.Decoder.{run_bytes, written, Write, write, write_uint16}
use shan_mqtt_broker.Packet.Text.{decode_chars, decode_string, encode_string}

abbrev pub IsTail : ℕ → Type 0
IsTail c = (0x80 ≤ c) × (c ≤ 0xbf)

-- Well-formed UTF-8 without U+0000, by the Unicode standard's table of byte sequences.
pub data Utf8 : Bytes → Type 0 where
  nil : Utf8 []
  ascii : {c : ℕ} {s : Bytes} → 1 ≤ c → c ≤ 0x7f → Utf8 s → Utf8 (c ∷ s)
  two : {c c2 : ℕ} {s : Bytes} → 0xc2 ≤ c → c ≤ 0xdf → IsTail c2 → Utf8 s → Utf8 (c ∷ (c2 ∷ s))
  three :
      {c c2 c3 : ℕ} {s : Bytes}
      → 0xe0 ≤ c
      → c ≤ 0xef
      → (c ≡ 0xe0 → 0xa0 ≤ c2)
      → (c ≡ 0xed → c2 ≤ 0x9f)
      → IsTail c2
      → IsTail c3
      → Utf8 s
      → Utf8 (c ∷ (c2 ∷ (c3 ∷ s)))
  four :
      {c c2 c3 c4 : ℕ} {s : Bytes}
      → 0xf0 ≤ c
      → c ≤ 0xf4
      → (c ≡ 0xf0 → 0x90 ≤ c2)
      → (c ≡ 0xf4 → c2 ≤ 0x8f)
      → IsTail c2
      → IsTail c3
      → IsTail c4
      → Utf8 s
      → Utf8 (c ∷ (c2 ∷ (c3 ∷ (c4 ∷ s))))

module _ (r len inx : ℕ) (result rest : Bytes) where
  ascii_step :
      (c : ℕ)
      → 1 ≤ c
      → c ≤ 0x7f
      → inx < len
      → run_bytes (decode_chars (suc r) len inx result) (c ∷ rest)
        ≡ run_bytes (decode_chars r len (inx + 0 + 1) (result ++ c ∷ [])) rest
  unfolding decode_chars
  ascii_step c l h lt = ground arith

  two_step :
      (c c2 : ℕ)
      → 0xc2 ≤ c
      → c ≤ 0xdf
      → inx + 1 < len
      → run_bytes (decode_chars (suc r) len inx result) (c ∷ (c2 ∷ rest))
        ≡ run_bytes (decode_chars r len (inx + 1 + 1) (result ++ c ∷ (c2 ∷ []))) rest
  unfolding decode_chars
  two_step c c2 l h lt = ground arith

  three_step :
      (c c2 c3 : ℕ)
      → 0xe0 ≤ c
      → c ≤ 0xef
      → (c ≡ 0xed → c2 ≤ 0x9f)
      → inx + 2 < len
      → run_bytes (decode_chars (suc r) len inx result) (c ∷ (c2 ∷ (c3 ∷ rest)))
        ≡ run_bytes (decode_chars r len (inx + 2 + 1) (result ++ c ∷ (c2 ∷ (c3 ∷ [])))) rest
  unfolding decode_chars
  three_step c c2 c3 l h no_surrogate lt = ground arith

  four_step :
      (c c2 c3 c4 : ℕ)
      → 0xf0 ≤ c
      → c ≤ 0xf4
      → inx + 3 < len
      → run_bytes (decode_chars (suc r) len inx result) (c ∷ (c2 ∷ (c3 ∷ (c4 ∷ rest))))
        ≡ run_bytes (decode_chars r len (inx + 3 + 1) (result ++ c ∷ (c2 ∷ (c3 ∷ (c4 ∷ []))))) rest
  unfolding decode_chars
  four_step c c2 c3 c4 l h lt = ground arith

decode_chars_done :
    (r len : ℕ) (result rest : Bytes)
    → run_bytes (decode_chars r len len result) rest ≡ ok (result, rest)
unfolding decode_chars
decode_chars_done zero len result rest = ground arith
decode_chars_done (suc r) len result rest = ground arith

decode_chars-Utf8 :
    {s : Bytes}
    → Utf8 s
    → (r len inx : ℕ) (result rest : Bytes) → inx + length s ≡ len
    → length s ≤ r
    → run_bytes (decode_chars r len inx result) (s ++ rest) ≡ ok (result ++ s, rest)
decode_chars-Utf8 nil r len inx result rest h k =
    let e : inx ≡ len = omega arith in rw (append-nil, e) (decode_chars_done r len result rest)
decode_chars-Utf8 (ascii {c} {s} a b u) zero len inx result rest h k = absurd (omega arith)
decode_chars-Utf8 (ascii {c} {s} a b u) (suc r) len inx result rest h k =
    ascii_step r len inx result (s ++ rest) c a b (omega arith)
    ∙ decode_chars-Utf8 u r len (inx + 0 + 1) (result ++ c ∷ []) rest (omega arith) (omega arith)
    ∙ ap (λ t. ok (t, rest)) (append_assoc result (c ∷ []) s)
decode_chars-Utf8 (two {c} {c2} {s} a b t u) zero len inx result rest h k = absurd (omega arith)
decode_chars-Utf8 (two {c} {c2} {s} a b t u) (suc r) len inx result rest h k =
    two_step r len inx result (s ++ rest) c c2 a b (omega arith)
    ∙ decode_chars-Utf8 u r len (inx + 1 + 1) (result ++ c ∷ (c2 ∷ [])) rest (omega arith)
        (omega arith)
    ∙ ap (λ t. ok (t, rest)) (append_assoc result (c ∷ (c2 ∷ [])) s)
decode_chars-Utf8 (three {c} {c2} {c3} {s} a b o n t v u) zero len inx result rest h k =
    absurd (omega arith)
decode_chars-Utf8 (three {c} {c2} {c3} {s} a b o n t v u) (suc r) len inx result rest h k =
    three_step r len inx result (s ++ rest) c c2 c3 a b n (omega arith)
    ∙ decode_chars-Utf8 u r len (inx + 2 + 1) (result ++ c ∷ (c2 ∷ (c3 ∷ []))) rest (omega arith)
        (omega arith)
    ∙ ap (λ t. ok (t, rest)) (append_assoc result (c ∷ (c2 ∷ (c3 ∷ []))) s)
decode_chars-Utf8 (four {c} {c2} {c3} {c4} {s} a b o n t v w u) zero len inx result rest h k =
    absurd (omega arith)
decode_chars-Utf8 (four {c} {c2} {c3} {c4} {s} a b o n t v w u) (suc r) len inx result rest h k =
    four_step r len inx result (s ++ rest) c c2 c3 c4 a b (omega arith)
    ∙ decode_chars-Utf8 u r len (inx + 3 + 1) (result ++ c ∷ (c2 ∷ (c3 ∷ (c4 ∷ [])))) rest
        (omega arith) (omega arith)
    ∙ ap (λ t. ok (t, rest)) (append_assoc result (c ∷ (c2 ∷ (c3 ∷ (c4 ∷ [])))) s)

pub string_read :
    (s rest : Bytes)
    → Utf8 s
    → length s ≤ 0xffff
    → run_bytes decode_string (length s / 256 ∷ (length s % 256 ∷ (s ++ rest))) ≡ ok (s, rest)
unfolding decode_string
string_read s rest u h =
    let n = length s / 256 * 256 + length s % 256 in
    decode_chars-Utf8 u n n 0 [] rest (omega arith) (omega arith)

-- Well-formed UTF-8 text of at most 65535 bytes is written, and reads back before whatever follows.
pub decode-encode_string :
    (s rest : Bytes)
    → Utf8 s
    → length s ≤ 0xffff
    → (ws : List Write) × (encode_string s ≡ ok ws)
      × (run_bytes decode_string (written ws ++ rest) ≡ ok (s, rest))
unfolding encode_string
decode-encode_string s rest u h =
    (write_uint16 (length s) ∷ (write s ∷ []), ground arith, rw append-nil (string_read s rest u h))
