-- ===== src/Config/Numbers.antt =====
-- `std::atoi` and `std::strtoll` in base 10, and the conversions to unsigned types (config.cpp).
use Prim.Native.Nat.{min}
use shan_mqtt_broker.Base.{
  Bool, ℕ, zero, suc, ◌+◌, ◌-◌, ◌*◌, ◌%◌, ◌^◌, ◌<◌, ◌&&◌, ◌||◌, [], ◌∷◌, Bytes, ltb, leb, ◌==◌,
  if◌then◌else◌, arith,
}

pub data ℤ : Type 0 where
  pos : ℕ → ℤ
  -- -(n + 1)
  negsuc : ℕ → ℤ

-- `std::isspace`
abbrev is_space : ℕ → Bool
is_space c = c == 32 || (leb 9 c && leb c 13)

abbrev skip_spaces : Bytes → Bytes
skip_spaces [] = []
skip_spaces (c ∷ s) = let rest = skip_spaces s in if is_space c then rest else c ∷ s

-- The digits at the front, after the digits that make `n`.
abbrev leading_digits : ℕ → Bytes → ℕ
leading_digits n [] = n
leading_digits n (c ∷ s) =
    let more = leading_digits (n * 10 + (c - b'0')) s in
    if leb b'0' c && leb c b'9' then more else n

abbrev minus : ℕ → ℤ
minus zero = pos 0
minus (suc n) = negsuc n

abbrev signed_digits : Bytes → ℤ
signed_digits [] = pos 0
signed_digits (c ∷ s) =
    if c == b'-'
    then minus (leading_digits 0 s)
    else (if c == b'+' then pos (leading_digits 0 s) else pos (leading_digits 0 (c ∷ s)))

abbrev clamp : ℤ → ℤ
clamp (pos n) = pos (min n 9223372036854775807)
clamp (negsuc n) = negsuc (min n 9223372036854775807)

-- What does not fit is the largest or the smallest `long long`.
abbrev pub strtoll : Bytes → ℤ
strtoll s = clamp (signed_digits (skip_spaces s))

-- Conversion to an unsigned type of `w` bits.
abbrev pub to_unsigned : ℕ → ℤ → ℕ
to_unsigned w (pos n) = n % 2 ^ w
to_unsigned w (negsuc n) = 2 ^ w - 1 - n % 2 ^ w

abbrev as_int : ℕ → ℤ
as_int n = if ltb n 2147483648 then pos n else negsuc (4294967295 - n)

-- `(int) std::strtol(s, nullptr, 10)`; the standard leaves open what `std::atoi` gives for a number
-- that does not fit an `int`.
abbrev pub atoi : Bytes → ℤ
atoi s = as_int (to_unsigned 32 (strtoll s))

pub to_unsigned_lt : (z : ℤ) → to_unsigned 16 z < 65536
to_unsigned_lt (pos n) = omega arith
to_unsigned_lt (negsuc n) = omega arith
