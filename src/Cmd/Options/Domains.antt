-- ===== src/Cmd/Options/Domains.antt =====
-- dns/cmd/homedns-dns/main.go: `parseBenchmarkDomains` reads back what it gives, joined with commas.
use Prim.Native.Char.{code}
use Prim.Native.String.{String}
use homedns_analytics.Common.{
  ℕ, suc, ◌≡◌, refl, subst, length, ap, ◌∙◌, false, ◌&&◌, List, [], ◌∷◌, All, arith, ok, bind-ok,
  is_space, Bool-cases, inl, inr,
}
use homedns_analytics.Strings.{split_on, join, trim_space, trim_left, trim_right, is_empty}
use homedns_analytics.Strings.Split.{contains, IsFree, split_on-join, split_on-IsFree}
use homedns_analytics.Strings.Trim.{trim_space_idem}
use homedns_analytics.Cmd.Values.{ArgumentError, trim_domains, parse_benchmark_domains}

-- A name that trimming leaves alone, with something in it and no comma.
pub record IsDomain (n : String) : Type 0 where
  pub trimmed : trim_space n ≡ n
  pub nonempty : is_empty n ≡ false
  pub free : IsFree b',' n

trim_left-IsFree : (sep : ℕ) (s : String) → IsFree sep s → IsFree sep (trim_left s)
unfolding trim_left contains
trim_left-IsFree sep String.[] h = refl
trim_left-IsFree sep (String.◌∷◌ c s) h = elim (Bool-cases (is_space (code c))) [
  | inl e ↦ rw e (trim_left-IsFree sep s (ground arith))
  | inr e ↦ rw e h
]

trim_right-IsFree : (sep : ℕ) (s : String) → IsFree sep s → IsFree sep (trim_right s)
unfolding trim_right contains
trim_right-IsFree sep String.[] h = refl
trim_right-IsFree sep (String.◌∷◌ c s) h =
    let ih : contains sep (trim_right s) ≡ false = trim_right-IsFree sep s (ground arith) in
    elim (Bool-cases (is_empty (trim_right s) && is_space (code c))) [
      | inl e ↦ rw e refl
      | inr e ↦ rw e (ground (arith, ih, h))
    ]

trim_space-IsFree : (sep : ℕ) (s : String) → IsFree sep s → IsFree sep (trim_space s)
unfolding trim_space
trim_space-IsFree sep s h = trim_left-IsFree sep (trim_right s) (trim_right-IsFree sep s h)

All-IsFree : (ns : List String) → All IsDomain ns → All (IsFree b',') ns
All-IsFree [] v = tt
All-IsFree (n ∷ ns) v = (v.0.free, All-IsFree ns v.1)

trim_domains_fixed :
    (index : ℕ) (ns : List String) → All IsDomain ns → trim_domains index ns ≡ ok ns
unfolding trim_domains
trim_domains_fixed index [] v = refl
trim_domains_fixed index (n ∷ ns) v =
    let ih = trim_domains_fixed (suc index) ns v.1 in rw (v.0.trimmed, v.0.nonempty, ih) refl

-- The first part of a list that is accepted, and the others.
trim_domains-parts :
    (index : ℕ) (p : String) (ps ns : List String)
    → trim_domains index (p ∷ ps) ≡ ok ns
    → (is_empty (trim_space p) ≡ false)
      × (rest : List String) × (trim_domains (suc index) ps ≡ ok rest)
      × (trim_space p ∷ rest ≡ ns)
unfolding trim_domains
trim_domains-parts index p ps ns h = elim (Bool-cases (is_empty (trim_space p))) [
  | inl e ↦ absurd (ground (arith, h, e))
  | inr e ↦
      let (rest, r, same) =
        bind-ok {E = ArgumentError} (trim_domains (suc index) ps)
          (λ names. ok (trim_space p ∷ names)) {b = ns} (ground (arith, h, e)) in
      (e, rest, r, ground (arith, same))
]

trim_domains-IsDomain :
    (index : ℕ) (ps ns : List String)
    → All (IsFree b',') ps
    → trim_domains index ps ≡ ok ns
    → All IsDomain ns
unfolding trim_domains
trim_domains-IsDomain index [] ns v h = subst (All IsDomain) {x = []} (ground (arith, h)) tt
trim_domains-IsDomain index (p ∷ ps) ns v h =
    let (e, rest, r, same) = trim_domains-parts index p ps ns h in
    let first : IsDomain (trim_space p) = record {
      trimmed = trim_space_idem p;
      nonempty = e;
      free = trim_space-IsFree b',' p v.0;
    } in
    subst (All IsDomain) same (first, trim_domains-IsDomain (suc index) ps rest v.1 r)

trim_domains-length :
    (index : ℕ) (ps ns : List String) → trim_domains index ps ≡ ok ns → length ns ≡ length ps
unfolding trim_domains
trim_domains-length index [] ns h = ground (arith, h)
trim_domains-length index (p ∷ ps) ns h =
    let (e, rest, r, same) = trim_domains-parts index p ps ns h in
    let ih = trim_domains-length (suc index) ps rest r in ground (arith, ih, same)

-- What `parseBenchmarkDomains` accepts is a name for each part of the text, trimmed, not empty and free of
-- commas.
pub parse_domains-IsDomain :
    (text : String) (ns : List String)
    → parse_benchmark_domains text ≡ ok ns
    → All IsDomain ns × (length ns ≡ length (split_on b',' text))
unfolding parse_benchmark_domains
parse_domains-IsDomain text ns h = (
  trim_domains-IsDomain 0 (split_on b',' text) ns (split_on-IsFree b',' text) h,
  trim_domains-length 0 (split_on b',' text) ns h,
)

-- Names that are trimmed, not empty and free of commas, at least one, come back from the text that
-- joins them with commas.
pub parse_domains-join :
    (n : String) (ns : List String)
    → All IsDomain (n ∷ ns)
    → parse_benchmark_domains (join "," (n ∷ ns)) ≡ ok (n ∷ ns)
unfolding parse_benchmark_domains
parse_domains-join n ns v =
    ap (trim_domains 0) (split_on-join "," n ns v.0.free (All-IsFree ns v.1))
    ∙ trim_domains_fixed 0 (n ∷ ns) v
