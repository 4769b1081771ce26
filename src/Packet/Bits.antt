-- ===== src/Packet/Bits.antt =====
-- The masks that the packets use, as arithmetic on one byte.
use Prim.Native.Nat.{bit_and, bit_or}
use shan_mqtt_broker.Base.{
  ℕ, zero, suc, ◌+◌, ◌*◌, ◌/◌, ◌%◌, ◌<◌, ◌≡◌, refl, Bool, true, ◌&&◌, ◌==◌, ==_iff, arith,
}

-- Two functions on the numbers below a bound, compared one by one.
agree : (f g : ℕ → ℕ) → ℕ → Bool
agree f g zero = true
agree f g (suc k) = agree f g k && f k == g k

agreed : (f g : ℕ → ℕ) (bound x : ℕ) → agree f g bound ≡ true → x < bound → f x ≡ g x
unfolding agree
agreed f g zero x t h = absurd (omega arith)
agreed f g (suc k) x t h =
    let both : (agree f g k && f k == g k) ≡ true = t in
    ground (arith, both, agreed f g k x, ==_iff (f k) (g k), ==_iff (f x) (g x))

agree_below : (bound : ℕ) (f g : ℕ → ℕ) → agree f g bound ≡ true → (x : ℕ) → x < bound → f x ≡ g x
agree_below bound f g t x h = agreed f g bound x t h

pub low_bits : (b : ℕ) → b < 256 → bit_and b 0x7f ≡ b % 128
unfolding agree
low_bits = agree_below 256 _ _ refl

pub top_bit : (b : ℕ) → b < 256 → bit_and b 0x80 ≡ b / 128 * 128
unfolding agree
top_bit = agree_below 256 _ _ refl

pub set_top_bit : (b : ℕ) → b < 128 → bit_or b 0x80 ≡ b + 128
unfolding agree
set_top_bit = agree_below 128 _ _ refl

pub low_four : (b : ℕ) → b < 256 → bit_and b 0x0f ≡ b % 16
unfolding agree
low_four = agree_below 256 _ _ refl

join_table : (x : ℕ) → x < 256 → bit_or (x / 16 * 16 % 256) (x % 16) ≡ x
unfolding agree
join_table = agree_below 256 _ _ refl

pub join_halves : (hi lo : ℕ) → hi < 16 → lo < 16 → bit_or (hi * 16 % 256) lo ≡ hi * 16 + lo
join_halves hi lo h l =
    let e : (hi * 16 + lo) / 16 ≡ hi = omega arith in
    let f : (hi * 16 + lo) % 16 ≡ lo = omega arith in
    rw (e, f) at (join_table (hi * 16 + lo) (omega arith))
