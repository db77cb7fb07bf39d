-- ===== src/Strings/Split.antt =====
-- Splitting undoes joining.
use Prim.Native.Char.{Char, code}
use Prim.Native.String.{String}
use homedns_analytics.Common.{
  ℕ, ◌≡◌, refl, ap, ◌∙◌, Bool, false, ◌||◌, List, [], ◌∷◌, arith, ◌==◌, All, Bool-cases, inl, inr,
}
use homedns_analytics.Strings.{split_on, join, append, before}

-- The character occurs in the text.
unfoldable pub contains : ℕ → String → Bool
contains sep String.[] = false
contains sep (String.◌∷◌ c s) = code c == sep || contains sep s

-- The first part, with a rest of parts behind it.
pub split_on-append :
    (sep : Char) (p t : String)
    → contains (code sep) p ≡ false
    → split_on (code sep) (append p (String.◌∷◌ sep t)) ≡ p ∷ split_on (code sep) t
unfolding contains split_on
split_on-append sep String.[] t h = ground arith
split_on-append sep (String.◌∷◌ c p) t h =
    let ih = split_on-append sep p t (ground arith) in ground (arith, ih)

split_on_whole :
    (sep : Char) (p : String) → contains (code sep) p ≡ false → split_on (code sep) p ≡ p ∷ []
unfolding contains split_on
split_on_whole sep String.[] h = refl
split_on_whole sep (String.◌∷◌ c p) h =
    let ih = split_on_whole sep p (ground arith) in ground (arith, ih)

abbrev pub IsFree : ℕ → String → Type 0
IsFree sep p = contains sep p ≡ false

-- Parts without the separator, at least one of them, come back.
pub split_on-join :
    (sep : Char) (p : String) (ps : List String)
    → IsFree (code sep) p
    → All (IsFree (code sep)) ps
    → split_on (code sep) (join sep (p ∷ ps)) ≡ p ∷ ps
unfolding join
split_on-join sep p [] h hs = split_on_whole sep p h
split_on-join sep p (q ∷ ps) h hs =
    split_on-append sep p (join sep (q ∷ ps)) h ∙ ap (λ l. p ∷ l) (split_on-join sep q ps hs.0 hs.1)

before-IsFree :
    (sep : ℕ) (c : Char) (ps : List String)
    → (code c == sep) ≡ false
    → All (IsFree sep) ps
    → All (IsFree sep) (before c ps)
unfolding contains
before-IsFree sep c [] h v = (rw h refl, tt)
before-IsFree sep c (p ∷ ps) h v = (rw h v.0, v.1)

-- Every part that splitting gives is free of the separator.
pub split_on-IsFree : (sep : ℕ) (s : String) → All (IsFree sep) (split_on sep s)
unfolding split_on contains
split_on-IsFree sep String.[] = (refl, tt)
split_on-IsFree sep (String.◌∷◌ c s) =
    let ih = split_on-IsFree sep s in
    elim (Bool-cases (code c == sep)) [
      | inl e ↦ rw e (refl, ih)
      | inr e ↦ rw e (before-IsFree sep c (split_on sep s) e ih)
    ]
