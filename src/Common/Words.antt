-- ===== src/Common/Words.antt =====
-- Go's 64-bit integers. A word is its bit pattern, a number below 2 ^ 64; `int`, `int64` and
-- `time.Duration` read the pattern in two's complement, `uint64` reads it as it stands, so that the
-- conversions between them are the identity.
use Prim.Native.Nat.{ℕ, ◌+◌, ◌-◌, ◌*◌, ◌/◌, ◌%◌, ◌^◌, ◌<◌}
use mathlib.Core.Path.{◌≡◌, refl}
use mathlib.Core.Bool.{Bool, true, false, not, ◌&&◌}
use native.Mathlib.Omega.{arith}
use homedns_analytics.Common.Tests.{ltb, leb, if◌then◌else◌}

-- `a + b` and `a - b` wrap around.
abbrev pub add64 : ℕ → ℕ → ℕ
add64 a b = (a + b) % 2 ^ 64

abbrev pub sub64 : ℕ → ℕ → ℕ
sub64 a b = (a + (2 ^ 64 - b)) % 2 ^ 64

abbrev pub mul64 : ℕ → ℕ → ℕ
mul64 a b = (a * b) % 2 ^ 64

-- `x < 0` and `x > 0` of a signed word.
abbrev pub is_negative : ℕ → Bool
is_negative a = leb (2 ^ 63) a

abbrev pub is_positive : ℕ → Bool
is_positive a = ltb 0 a && ltb a (2 ^ 63)

-- `a < b` and `a <= b` of signed words.
abbrev pub ltb_signed : ℕ → ℕ → Bool
ltb_signed a b = ltb ((a + 2 ^ 63) % 2 ^ 64) ((b + 2 ^ 63) % 2 ^ 64)

abbrev pub leb_signed : ℕ → ℕ → Bool
leb_signed a b = leb ((a + 2 ^ 63) % 2 ^ 64) ((b + 2 ^ 63) % 2 ^ 64)

abbrev pub magnitude : ℕ → ℕ
magnitude a = if is_negative a then 2 ^ 64 - a else a

abbrev differs : Bool → Bool → Bool
differs true b = not b
differs false b = b

-- `a / b` of signed words rounds towards zero; the code divides by no zero.
unfoldable pub div_signed : ℕ → ℕ → ℕ
div_signed a b =
    let q = magnitude a / magnitude b in
    if differs (is_negative a) (is_negative b) then (2 ^ 64 - q) % 2 ^ 64 else q

unfoldable pub rem_signed : ℕ → ℕ → ℕ
rem_signed a b = sub64 a (mul64 (div_signed a b) b)

pub is_negative-eq-false : (a : ℕ) → a < 2 ^ 63 → is_negative a ≡ false
is_negative-eq-false a h = ground arith

-- On words that are not negative the division is that of the numbers.
pub div_signed_nonneg : (a b : ℕ) → a < 2 ^ 63 → b < 2 ^ 63 → div_signed a b ≡ a / b
unfolding div_signed
div_signed_nonneg a b ha hb = rw (is_negative-eq-false a ha, is_negative-eq-false b hb) refl
