-- ===== src/Cmd/Texts/Bar.antt =====
-- dns/cmd/homedns-dns/progress.go: the shape of the progress bar.
use Prim.Native.Char.{Char}
use Prim.Native.String.{String}
use homedns_analytics.Common.{
  ℕ, zero, suc, ◌+◌, ◌-◌, ◌^◌, ◌≤◌, ◌<◌, ◌≡◌, refl, Bool-cases, true, inl, inr, arith, some, leb,
  if◌then◌else◌,
}
use homedns_analytics.Float.{FloatOps, FloatLaws}
use homedns_analytics.Strings.{append}
use homedns_analytics.Cmd.Texts.{repeated, bar_text, progress_bar}

-- The number of characters.
abbrev pub size : String → ℕ
size String.[] = 0
size (String.◌∷◌ c s) = suc (size s)

size-append : (s t : String) → size (append s t) ≡ size s + size t
size-append String.[] t = omega arith
size-append (String.◌∷◌ c s) t = let ih = size-append s t in omega (arith, ih)

size-repeated : (c : Char) (n : ℕ) → size (repeated c n) ≡ n
unfolding repeated
size-repeated c zero = refl
size-repeated c (suc n) = let ih = size-repeated c n in omega (arith, ih)

size-bar_text : (k n : ℕ) → k ≤ n → size (bar_text k n) ≡ n + 2
size-bar_text k n h =
    let a = size-append (repeated "#" k) (append (repeated "-" (n - k)) "]") in
    let b = size-append (repeated "-" (n - k)) "]" in
    let c = size-repeated "#" k in let d = size-repeated "-" (n - k) in omega (arith, a, b, c, d, h)

-- What is used of float64: a percentage from 0 to 100 of a width is from 0 to the width, and truncated
-- to an integer it is so too.
pub record BarLaws {F : Type 0} (ops : FloatOps F) : Type 0 where
  pub ordered : (a b : ℕ) → a < 2 ^ 53 → b < 2 ^ 53 → ops.le (ops.of_int a) (ops.of_int b) ≡ leb a b
  pub share :
      (p : F) (w : ℕ)
      → w < 2 ^ 53
      → ops.le (ops.of_int 0) p ≡ true
      → ops.le p (ops.of_int 100) ≡ true
      → ops.to_int (ops.mul (ops.div p (ops.of_int 100)) (ops.of_int w)) ≤ w

module _ {F : Type 0} (ops : FloatOps F) (fl : FloatLaws ops) (bl : BarLaws ops) where
  -- Lowering to 100 what is above, of a number from 0 on.
  lowered :
      (p : F) (w : ℕ)
      → w < 2 ^ 53
      → ops.le (ops.of_int 0) p ≡ true
      → ops.to_int (
          ops.mul
            (ops.div (if ops.lt (ops.of_int 100) p then ops.of_int 100 else p) (ops.of_int 100))
            (ops.of_int w))
        ≤ w
  lowered p w h z = elim (Bool-cases (ops.lt (ops.of_int 100) p)) [
    | inl e ↦ rw e (
        bl.share (ops.of_int 100) w h (bl.ordered 0 100 (omega arith) (omega arith))
          (bl.ordered 100 100 (omega arith) (omega arith)))
    | inr e ↦
        let full : ops.le (ops.of_int 100) (ops.of_int 100) ≡ true =
          bl.ordered 100 100 (omega arith) (omega arith) in
        let own = (fl.refl_of_le (ops.of_int 0) p z).1 in
        let below = fl.lt-le (ops.of_int 100) p full own in
        rw e (bl.share p w h z (ground (arith, e, below)))
  ]

  -- Raising to 0 what is below.
  raised :
      (p : F)
      → ops.le p p ≡ true
      → ops.le (ops.of_int 0) (if ops.lt p (ops.of_int 0) then ops.of_int 0 else p) ≡ true
  raised p own = elim (Bool-cases (ops.lt p (ops.of_int 0))) [
    | inl e ↦ rw e (bl.ordered 0 0 (omega arith) (omega arith))
    | inr e ↦
        let nought : ops.le (ops.of_int 0) (ops.of_int 0) ≡ true =
          bl.ordered 0 0 (omega arith) (omega arith) in
        let above = fl.lt-le p (ops.of_int 0) own nought in rw e (ground (arith, e, above))
  ]

  -- Whatever the percentage, unless it is NaN, a bar of a positive width is printed: no count of cells is
  -- negative, and it has as many cells as the width says, between its brackets, some done and the others
  -- not.
  pub progress_bar-size :
      (percent : F) (width : ℕ)
      → ops.le percent percent ≡ true
      → 1 ≤ width
      → width < 2 ^ 53
      → (done : ℕ) × (progress_bar ops percent width ≡ some (bar_text done width))
        × (done ≤ width)
        × (size (bar_text done width) ≡ width + 2)
  unfolding progress_bar
  progress_bar-size percent width own p h =
      let bound = lowered _ width h (raised percent own) in
      (_, ground (arith, bound, p, h), bound, size-bar_text _ width bound)
