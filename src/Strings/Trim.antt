-- ===== src/Strings/Trim.antt =====
-- Trimming is done once, and a text is blank if nothing is left of it.
use Prim.Native.Char.{Char, code}
use Prim.Native.String.{String}
use text.Mathlib.TextLemmas.{nil≢cons, tail-eq_of_cons-eq}
use homedns_analytics.Common.{
  ◌≡◌, refl, sym, ap, ◌∙◌, ◌&&◌, arith, is_space, is_blank, Bool-cases, inl, inr,
}
use homedns_analytics.Strings.{trim_left, trim_right, trim_space, keep, is_empty}

trim_left_idem : (s : String) → trim_left (trim_left s) ≡ trim_left s
unfolding trim_left
trim_left_idem String.[] = refl
trim_left_idem (String.◌∷◌ c s) = elim (Bool-cases (is_space (code c))) [
  | inl e ↦ rw e (trim_left_idem s)
  | inr e ↦ rw e (rw (e, trim_left) refl)
]

keep_tail : (c : Char) (s t : String) → keep c t ≡ String.◌∷◌ c s → t ≡ s
keep_tail c s t h = elim (Bool-cases (is_empty t && is_space (code c))) [
  | inl e ↦ let gone : keep c t ≡ String.[] = rw e refl in absurd (nil≢cons (sym gone ∙ h))
  | inr e ↦ let kept : keep c t ≡ String.◌∷◌ c t = rw e refl in tail-eq_of_cons-eq (sym kept ∙ h)
]

-- A text that nothing can be trimmed off at its end stays so when its start is trimmed.
trim_right-trim_left : (s : String) → trim_right s ≡ s → trim_right (trim_left s) ≡ trim_left s
unfolding trim_left trim_right
trim_right-trim_left String.[] h = refl
trim_right-trim_left (String.◌∷◌ c s) h = elim (Bool-cases (is_space (code c))) [
  | inl e ↦ rw e (trim_right-trim_left s (keep_tail c s (trim_right s) h))
  | inr e ↦ rw e h
]

trim_right_idem : (s : String) → trim_right (trim_right s) ≡ trim_right s
unfolding trim_right
trim_right_idem String.[] = refl
trim_right_idem (String.◌∷◌ c s) =
    let ih = trim_right_idem s in
    let t = trim_right s in
    elim (Bool-cases (is_empty t && is_space (code c))) [
      | inl e ↦ rw e refl
      | inr e ↦ rw (e, trim_right) (rw ih (rw e refl))
    ]

trim_left-blank : (s : String) → is_empty (trim_left s) ≡ is_blank s
unfolding trim_left is_blank
trim_left-blank String.[] = refl
trim_left-blank (String.◌∷◌ c s) = let ih = trim_left-blank s in ground arith

trim_right-blank : (s : String) → is_blank (trim_right s) ≡ is_blank s
unfolding trim_right is_blank
trim_right-blank String.[] = refl
trim_right-blank (String.◌∷◌ c s) = let ih = trim_right-blank s in ground arith

-- `strings.TrimSpace` gives the empty text exactly for blank texts, never a blank one otherwise, and
-- does nothing the second time.
pub trim_space-blank : (s : String) → is_empty (trim_space s) ≡ is_blank s
unfolding trim_space
trim_space-blank s = trim_left-blank (trim_right s) ∙ trim_right-blank s

pub trim_space_idem : (s : String) → trim_space (trim_space s) ≡ trim_space s
unfolding trim_space
trim_space_idem s =
    let fixed = trim_right-trim_left (trim_right s) (trim_right_idem s) in
    ap trim_left fixed ∙ trim_left_idem (trim_right s)

pub blank-trim_space : (s : String) → is_blank (trim_space s) ≡ is_blank s
blank-trim_space s =
    sym (trim_space-blank (trim_space s)) ∙ ap is_empty (trim_space_idem s) ∙ trim_space-blank s
