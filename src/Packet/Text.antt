-- ===== src/Packet/Text.antt =====
-- packet/fixed_header.cpp: strings and binary data behind a 16-bit length.
use shan_mqtt_broker.Base.{
  ℕ, zero, suc, ◌+◌, ◌&&◌, List, [], ◌∷◌, ◌++◌, Bytes, ◌==◌, ltb, leb, length, if◌then◌else◌,
}
use shan_mqtt_broker.Outcome.{Error, mqtt_error, Result, ok, err}
use shan_mqtt_broker.Wire.Decoder.{
  Decoder, ret, throw, stop, get_uint8, get_uint16, get_bytes, throw_if, ◌>>=◌, ◌>>◌, Write,
  write_uint16, write,
}

abbrev pub ill_formed : Error
ill_formed = mqtt_error "ill formed UTF-8 string found."

abbrev pub null_found : Error
null_found = mqtt_error "ill formed UTF-8 string found. [code point:U+0000]"

abbrev pub surrogate_found : Error
surrogate_found = mqtt_error "ill formed UTF-8 string found. [code point:U+D800 ~ U+DFFF]"

abbrev pub two_bytes : ℕ → Decoder (Bytes × ℕ)
two_bytes ch = do c2 ← get_uint8; ret (ch ∷ (c2 ∷ []), 1)

abbrev pub three_bytes : ℕ → Decoder (Bytes × ℕ)
three_bytes ch = do
  c2 ← get_uint8
  throw_if (ch == 0xed && leb 0xa0 c2) surrogate_found
  c3 ← get_uint8
  ret (ch ∷ (c2 ∷ (c3 ∷ [])), 2)

abbrev pub four_bytes : ℕ → Decoder (Bytes × ℕ)
four_bytes ch = do
  c2 ← get_uint8
  c3 ← get_uint8
  c4 ← get_uint8
  ret (ch ∷ (c2 ∷ (c3 ∷ (c4 ∷ []))), 3)

abbrev pub char_after : ℕ → Decoder (Bytes × ℕ)
char_after ch =
    if ch == 0
    then throw null_found
    else (if leb ch 0x7f
        then ret (ch ∷ [], 0)
        else (if leb ch 0xdf
            then two_bytes ch
            else (if leb ch 0xef
                then three_bytes ch
                else (if leb ch 0xf7 then four_bytes ch else ret ([], 0)))))

-- The body of the loop of `decode_string`, up to its last test: what is appended to `result`, and how
-- far `inx` moves beyond the loop's own `inx++`.
unfoldable pub decode_char : Decoder (Bytes × ℕ)
decode_char = do ch ← get_uint8; char_after ch

-- The loop of `decode_string`; `rounds` is fuel.
unfoldable pub decode_chars : ℕ → ℕ → ℕ → Bytes → Decoder Bytes
unfolding decode_char
decode_chars zero len inx result = if ltb inx len then stop else ret result
decode_chars (suc rounds) len inx result =
    if ltb inx len
    then (do
      (appended, skipped) ← decode_char
      throw_if (leb len (inx + skipped)) ill_formed
      decode_chars rounds len (inx + skipped + 1) (result ++ appended))
    else ret result

-- A round moves `inx` by one at least, so `len` rounds are enough.
unfoldable pub decode_string : Decoder Bytes
unfolding decode_chars
decode_string = do len ← get_uint16; decode_chars len len 0 []

unfoldable pub encode_string : Bytes → Result (List Write)
encode_string str =
    if ltb 0xffff (length str)
    then err (mqtt_error "too long string. (encode_string)")
    else ok (write_uint16 (length str) ∷ (write str ∷ []))

unfoldable pub decode_binary : Decoder Bytes
decode_binary = do
  len ← get_uint16
  result ← get_bytes len
  throw_if (ltb (length result) len) (mqtt_error "not enough data. (decode_binary)")
  ret result

unfoldable pub encode_binary : Bytes → Result (List Write)
encode_binary bin =
    if ltb 0xffff (length bin)
    then err (mqtt_error "too long binary. (encode_binary)")
    else ok (write_uint16 (length bin) ∷ (write bin ∷ []))
