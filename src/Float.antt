-- ===== src/Float.antt =====
-- Go's `float64`, a parameter: a type with the operations that the benchmark uses, and the laws of
-- its order. A number that is not `<=` itself is NaN.
use homedns_analytics.Common.{
  ℕ, ◌≡◌, ◌⊎◌, Bool, true, not, ◌&&◌, arith, ltb, leb, ◌==◌, div_signed, rem_signed, ◌/◌, ◌+◌, ◌*◌,
  ◌-◌,
}

pub record FloatOps (F : Type 0) : Type 0 where
  -- `float64(n)` of a signed integer.
  pub of_int : ℕ → F
  -- `int64(f)` of a float.
  pub to_int : F → ℕ
  pub add : F → F → F
  pub sub : F → F → F
  pub mul : F → F → F
  pub div : F → F → F
  -- `math.Round`
  pub nearest : F → F
  -- `a < b`, `a <= b` and `a == b`
  pub lt : F → F → Bool
  pub le : F → F → Bool
  pub eq : F → F → Bool

-- The comparisons of IEEE 754: an order that is total away from NaN.
pub record FloatLaws {F : Type 0} (ops : FloatOps F) : Type 0 where
  pub refl_of_le : (x y : F) → ops.le x y ≡ true → (ops.le x x ≡ true) × (ops.le y y ≡ true)
  pub le_trans : (x y z : F) → ops.le x y ≡ true → ops.le y z ≡ true → ops.le x z ≡ true
  pub le_total :
      (x y : F) → ops.le x x ≡ true → ops.le y y ≡ true → (ops.le x y ≡ true) ⊎ (ops.le y x ≡ true)
  pub lt-le : (x y : F) → ops.le x x ≡ true → ops.le y y ≡ true → ops.lt x y ≡ not (ops.le y x)
  pub eq-le :
      (x y : F) → ops.le x x ≡ true → ops.le y y ≡ true → ops.eq x y ≡ (ops.le x y && ops.le y x)

module _ {F : Type 0} (ops : FloatOps F) where
  open ops use {of_int, add, mul, div, nearest}

  -- dns/internal/benchmark/statistics.go: `round(value, 6)`, with the factor `math.Pow10(6)`.
  unfoldable pub round_six : F → F
  round_six value = div (nearest (mul value (of_int 1_000_000))) (of_int 1_000_000)

  -- `Duration.Seconds()` of the standard library.
  unfoldable pub seconds : ℕ → F
  seconds d =
      add (of_int (div_signed d 1_000_000_000))
        (div (of_int (rem_signed d 1_000_000_000)) (of_int 1_000_000_000))

  -- `durationMilliseconds`
  unfoldable pub duration_milliseconds : ℕ → F
  duration_milliseconds d = div (of_int d) (of_int 1_000_000)

-- The laws can be met: natural numbers, with the operations rounded down.
abbrev pub natural_ops : FloatOps ℕ
natural_ops = record {
  of_int = λ n. n;
  to_int = λ a. a;
  add = λ a b. a + b;
  sub = λ a b. a - b;
  mul = λ a b. a * b;
  div = λ a b. a / b;
  nearest = λ a. a;
  lt = ltb;
  le = leb;
  eq = λ a b. a == b;
}

pub natural_laws : FloatLaws natural_ops
natural_laws = record {
  refl_of_le = λ x y h. ground arith;
  le_trans = λ x y z p q. ground arith;
  le_total = λ x y p q. ground arith;
  lt-le = λ x y p q. ground arith;
  eq-le = λ x y p q. ground arith;
}
