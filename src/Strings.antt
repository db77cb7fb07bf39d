-- ===== src/Strings.antt =====
-- What dns/ uses of Go's packages strings and strconv, over native texts: `Split` and `Join` with a
-- separator of one character, `TrimSpace`, `HasPrefix` with `TrimPrefix`, and `Atoi`.
pub mod Split
pub mod Trim
use Prim.Native.Char.{Char, code}
use Prim.Native.String.{String}
use homedns_analytics.Common.{
  ℕ, ◌+◌, ◌-◌, ◌*◌, ◌%◌, ◌^◌, Bool, true, false, not, ◌&&◌, Option, none, some, List, [], ◌∷◌, leb,
  ltb, ◌==◌, is_space, if◌then◌else◌,
}

abbrev pub is_empty : String → Bool
is_empty String.[] = true
is_empty (String.◌∷◌ c s) = false

-- To put a character before the first part.
abbrev pub before : Char → List String → List String
before c [] = String.◌∷◌ c String.[] ∷ []
before c (p ∷ ps) = String.◌∷◌ c p ∷ ps

-- `strings.Split(s, sep)`, where `sep` is the character with the code `sep`.
unfoldable pub split_on : ℕ → String → List String
split_on sep String.[] = String.[] ∷ []
split_on sep (String.◌∷◌ c s) =
    let rest = split_on sep s in if code c == sep then String.[] ∷ rest else before c rest

abbrev pub append : String → String → String
append String.[] t = t
append (String.◌∷◌ c s) t = String.◌∷◌ c (append s t)

-- `strings.Join(parts, sep)`
unfoldable pub join : Char → List String → String
join sep [] = String.[]
join sep (p ∷ []) = p
join sep (p ∷ q ∷ ps) = append p (String.◌∷◌ sep (join sep (q ∷ ps)))

unfoldable pub trim_left : String → String
trim_left String.[] = String.[]
trim_left (String.◌∷◌ c s) =
    let rest = trim_left s in if is_space (code c) then rest else String.◌∷◌ c s

abbrev pub keep : Char → String → String
keep c t = if is_empty t && is_space (code c) then String.[] else String.◌∷◌ c t

unfoldable pub trim_right : String → String
trim_right String.[] = String.[]
trim_right (String.◌∷◌ c s) = keep c (trim_right s)

-- `strings.TrimSpace`
unfoldable pub trim_space : String → String
trim_space s = trim_left (trim_right s)

-- `strings.HasPrefix` and `strings.TrimPrefix`: what follows the prefix, if it is there.
unfoldable pub strip_prefix : String → String → Option String
strip_prefix String.[] s = some s
strip_prefix (String.◌∷◌ p ps) String.[] = none
strip_prefix (String.◌∷◌ p ps) (String.◌∷◌ c s) =
    let rest = strip_prefix ps s in if code p == code c then rest else none

-- `strings.ToUpper` on the letters a to z. No other character has an upper case among the letters that
-- the callers compare with.
unfoldable pub upper_code : ℕ → ℕ
upper_code c = if leb b'a' c && leb c b'z' then c - 32 else c

-- `strings.ToUpper(s) == t`
unfoldable pub upper_is : String → String → Bool
upper_is String.[] String.[] = true
upper_is String.[] (String.◌∷◌ d t) = false
upper_is (String.◌∷◌ c s) String.[] = false
upper_is (String.◌∷◌ c s) (String.◌∷◌ d t) = upper_code (code c) == code d && upper_is s t

abbrev pub is_digit : ℕ → Bool
is_digit c = leb b'0' c && leb c b'9'

-- The digits of a text as a number.
unfoldable pub digits : ℕ → String → Option ℕ
digits n String.[] = some n
digits n (String.◌∷◌ c s) =
    let rest = digits (10 * n + (code c - b'0')) s in if is_digit (code c) then rest else none

-- A text of at least one digit.
unfoldable pub unsigned : String → Option ℕ
unfolding digits
unsigned String.[] = none
unsigned (String.◌∷◌ c s) = digits 0 (String.◌∷◌ c s)

abbrev as_positive : Option ℕ → Option ℕ
as_positive none = none
as_positive (some n) = if ltb n (2 ^ 63) then some n else none

abbrev as_negative : Option ℕ → Option ℕ
as_negative none = none
as_negative (some n) = if leb n (2 ^ 63) then some ((2 ^ 64 - n) % 2 ^ 64) else none

-- `strconv.Atoi`, as a signed word; `none` is an error.
unfoldable pub atoi : String → Option ℕ
unfolding unsigned
atoi String.[] = none
atoi (String.◌∷◌ c s) =
    if code c == b'-'
    then as_negative (unsigned s)
    else if code c == b'+'
    then as_positive (unsigned s)
    else as_positive (unsigned (String.◌∷◌ c s))
