-- ===== src/Packet/Ending.antt =====
-- The loops of the decoding constructors (packet/*.cpp) end: their fuel is enough.
use shan_mqtt_broker.Topic.Filter.{is_topic_filter_valid}
use shan_mqtt_broker.Wire.Decoder.{lift}
use shan_mqtt_broker.Packet.Subscribe.{decode_max_qos, decode_filters, decode_unsubscribe_filters}
use shan_mqtt_broker.Outcome.{err, ok, stuck, Result}
use shan_mqtt_broker.Base.{
  true, ◌/◌, ◌∷◌, refl, ◌-◌, [], is_empty, ◌&&◌, ◌++◌, leb, ◌≢◌, false, length, ◌==◌, ℕ, zero, suc,
  ◌+◌, ◌≤◌, ◌≡◌, Bytes, List, Bool, ltb, arith,
}
use Prim.Native.Nat.{bit_and}
use shan_mqtt_broker.Wire.Ends.{Ends, Ends->>=, Ends-throw_if, Ends-if}
use shan_mqtt_broker.Packet.Text.{
  char_after, decode_char, decode_chars, decode_string, decode_binary,
}
use shan_mqtt_broker.Packet.FixedHeader.{
  decode_length_loop, check_flags, decode_remaining_length, decode_fixed_header,
}

char_after-Ends : (ch : ℕ) → Ends (char_after ch)
char_after-Ends ch = Ends-if (ch == 0) _ _ tt (
    Ends-if (leb ch 0x7f) _ _ tt (
      Ends-if (leb ch 0xdf) _ _ (λ c2. tt)
        (Ends-if (leb ch 0xef) _ _ (λ c2. Ends-throw_if (ch == 0xed && leb 0xa0 c2) _ _ (λ c3. tt))
          (Ends-if (leb ch 0xf7) _ _ (λ c2 c3 c4. tt) tt))))

decode_chars-Ends :
    (rounds len inx : ℕ) (result : Bytes)
    → len ≤ inx + rounds
    → Ends (decode_chars rounds len inx result)
unfolding decode_chars decode_char
decode_chars-Ends zero len inx result h =
    let done : ltb inx len ≡ false = ground (arith, h) in rw done tt
decode_chars-Ends (suc r) len inx result h =
    Ends-if (ltb inx len) _ _
      (λ ch. Ends->>= (char_after ch) _ (char_after-Ends ch) λ (appended, skipped).
        Ends-throw_if (leb len (inx + skipped)) _ _
          (decode_chars-Ends r len (inx + skipped + 1) (result ++ appended) (omega arith)))
      tt

pub decode_string-Ends : Ends decode_string
unfolding decode_string
decode_string-Ends = λ len. decode_chars-Ends len len 0 _ (omega arith)

pub decode_binary-Ends : Ends decode_binary
unfolding decode_binary
decode_binary-Ends = λ len result. Ends-throw_if (ltb (length result) len) _ _ tt

pub decode_length-Ends : Ends decode_remaining_length
unfolding decode_remaining_length decode_length_loop
decode_length-Ends = λ a. Ends-if (bit_and a 0x80 == 0) _ _ tt (λ b.
    Ends-if (bit_and b 0x80 == 0) _ _ tt (λ c. Ends-if (bit_and c 0x80 == 0) _ _ tt (λ d. tt)))

pub Ends-lift : {A : Type 0} (r : Result A) → r ≢ stuck → Ends (lift r)
Ends-lift (ok a) h = tt
Ends-lift (err e) h = tt
Ends-lift stuck h = absurd (h refl)

pub checked-flags : (packet_type flags : ℕ) → check_flags packet_type flags ≢ stuck
unfolding check_flags
checked-flags packet_type flags = ground arith

pub decode_fixed_header-Ends : Ends decode_fixed_header
unfolding decode_fixed_header
decode_fixed_header-Ends = λ byte.
    Ends->>= (lift (check_flags (byte / 16) (bit_and byte 0x0f))) _
      (Ends-lift (check_flags (byte / 16) (bit_and byte 0x0f))
        (checked-flags (byte / 16) (bit_and byte 0x0f)))
      (λ u. Ends->>= decode_remaining_length _ decode_length-Ends (λ n. tt))

pub decode_max_qos-Ends : (v : Bool × Bool) → Ends (decode_max_qos v)
unfolding decode_max_qos
decode_max_qos-Ends (true, w) = λ max_qos. Ends-throw_if (leb 3 max_qos) _ _ tt
decode_max_qos-Ends (false, w) = tt

pub decode_filters-Ends :
    (rounds remain : ℕ) (filters : List Bytes) (qoses : List ℕ) (wilds : List Bool)
    → remain ≤ rounds
    → Ends (decode_filters rounds remain filters qoses wilds)
unfolding decode_filters decode_max_qos
decode_filters-Ends zero remain filters qoses wilds h =
    let done : ltb 0 remain ≡ false = ground (arith, h) in rw done tt
decode_filters-Ends (suc r) remain filters qoses wilds h =
    Ends-if (ltb 0 remain) _ _
      (λ len.
        Ends->>= (decode_chars len len 0 []) _ (decode_chars-Ends len len 0 [] (omega arith))
          λ topic. Ends-throw_if (is_empty topic) _ _ (
            Ends->>= (decode_max_qos (is_topic_filter_valid topic)) _
              (decode_max_qos-Ends (is_topic_filter_valid topic))
              λ (max_qos, w, n).
                decode_filters-Ends r (remain - (length topic + 2) - n) (filters ++ topic ∷ [])
                  (qoses ++ max_qos ∷ []) (wilds ++ w ∷ []) (omega arith)))
      tt

pub decode_unsubscribe_filters-Ends :
    (rounds remain : ℕ) (filters : List Bytes) (wilds : List Bool)
    → remain ≤ rounds
    → Ends (decode_unsubscribe_filters rounds remain filters wilds)
unfolding decode_unsubscribe_filters
decode_unsubscribe_filters-Ends zero remain filters wilds h =
    let done : ltb 0 remain ≡ false = ground (arith, h) in rw done tt
decode_unsubscribe_filters-Ends (suc r) remain filters wilds h =
    Ends-if (ltb 0 remain) _ _
      (λ len.
        Ends->>= (decode_chars len len 0 []) _ (decode_chars-Ends len len 0 [] (omega arith))
          λ topic. Ends-throw_if (is_empty topic) _ _ (
            decode_unsubscribe_filters-Ends r (remain - (length topic + 2)) (filters ++ topic ∷ [])
              (wilds ++ (is_topic_filter_valid topic).1 ∷ []) (omega arith)))
      tt
