-- ===== src/Cmd/Flags.antt =====
-- What dns/cmd/homedns-dns/main.go uses of Go's package flag: `FlagSet.Parse` with ContinueOnError,
-- over any state `S` that the flags set. A flag is known by its kind, and setting it may fail.
use Prim.Native.Char.{Char, code}
use Prim.Native.String.{String}
use text.Mathlib.Text.{◌==◌ as str_eq}
use homedns_analytics.Common.{
  Bool, true, false, ◌||◌, Option, none, some, List, [], ◌∷◌, Result, ok, err, ◌==◌, if◌then◌else◌,
}
use homedns_analytics.Strings.{strip_prefix, is_empty}

-- A boolean flag takes no argument of its own.
pub data FlagKind : Type 0 where
  switch valued : FlagKind

pub data FlagError : Type 0 where
  help : FlagError
  bad_syntax not_defined needs_argument : String → FlagError
  invalid_value : (name value : String) → FlagError

-- How `parseOne` reads an argument: not as a flag, as the end of the flags, or as a flag, perhaps
-- with a value behind `=`.
pub data Token : Type 0 where
  operand terminator malformed : Token
  named : String → Option String → Token

-- The name and what follows the first `=`, but for the first character, which is none.
abbrev pub cons_name : Char → String × Option String → String × Option String
cons_name c (name, value) = (String.◌∷◌ c name, value)

unfoldable pub cut : String → String × Option String
cut String.[] = (String.[], none)
cut (String.◌∷◌ c s) =
    let rest = cut s in if code c == b'=' then (String.[], some s) else cons_name c rest

abbrev to_token : String × Option String → Token
to_token (name, value) = named name value

unfoldable pub flag_token : String → Token
unfolding cut
flag_token String.[] = malformed
flag_token (String.◌∷◌ c s) =
    if code c == b'-' || code c == b'=' then malformed else to_token (cons_name c (cut s))

unfoldable pub read_token : String → Token
unfolding flag_token
read_token s = elim (strip_prefix "-" s) [
  | none ↦ operand
  | some rest ↦ if is_empty rest then operand else elim (strip_prefix "-" rest) [
    | none ↦ flag_token rest
    | some name ↦ if is_empty name then terminator else flag_token name
  ]
]

-- The flags of a set: their kinds by name, and what setting one does.
pub record FlagSet (S : Type 0) : Type 0 where
  pub formal : String → Option FlagKind
  pub set : String → String → S → Option S

pub data Action (S : Type 0) : Type 0 where
  stop_at stop_after : Action S
  fail : FlagError → Action S
  go_on : S → Action S
  take_next : String → Action S

module _ {S : Type 0} (flags : FlagSet S) where
  abbrev pub assign : String → String → S → Result FlagError S
  assign name value s = elim (flags.set name value s) [
    | none ↦ err (invalid_value name value)
    | some s' ↦ ok s'
  ]

  abbrev pub undefined : String → FlagError
  undefined name = if str_eq name "help" || str_eq name "h" then help else not_defined name

  -- What `parseOne` does with an argument: it ends the parsing, goes on, or takes the next argument as
  -- the value of a flag.
  abbrev pub after : Result FlagError S → Action S
  after (err e) = fail e
  after (ok s) = go_on s

  abbrev pub of_kind : String → Option String → S → Option FlagKind → Action S
  of_kind name value s none = fail (undefined name)
  of_kind name (some v) s (some k) = after (assign name v s)
  of_kind name none s (some switch) = after (assign name "true" s)
  of_kind name none s (some valued) = take_next name

  unfoldable pub parse_one : String → S → Action S
  parse_one a s = elim (read_token a) [
    | operand ↦ stop_at
    | terminator ↦ stop_after
    | malformed ↦ fail (bad_syntax a)
    | named name value ↦ of_kind name value s (flags.formal name)
  ]

  -- `Parse`: the state that the flags set, and the arguments that follow them.
  unfoldable pub parse : List String → S → Result FlagError (S × List String)
  parse [] s = ok (s, [])
  parse (a ∷ []) s = elim (parse_one a s) [
    | stop_at ↦ ok (s, a ∷ [])
    | stop_after ↦ ok (s, [])
    | fail e ↦ err e
    | go_on s' ↦ ok (s', [])
    | take_next name ↦ err (needs_argument name)
  ]
  parse (a ∷ v ∷ args) s = elim (parse_one a s) [
    | stop_at ↦ ok (s, a ∷ v ∷ args)
    | stop_after ↦ ok (s, v ∷ args)
    | fail e ↦ err e
    | go_on s' ↦ parse (v ∷ args) s'
    | take_next name ↦ elim (assign name v s) [ err e ↦ err e | ok s' ↦ parse args s' ]
  ]

-- `strconv.ParseBool`; `none` is an error.
unfoldable pub parse_bool : String → Option Bool
parse_bool s =
    if str_eq s "1"
      || str_eq s "t"
      || str_eq s "T"
      || str_eq s "TRUE"
      || str_eq s "true"
      || str_eq s "True"
    then some true
    else if str_eq s "0"
        || str_eq s "f"
        || str_eq s "F"
        || str_eq s "FALSE"
        || str_eq s "false"
        || str_eq s "False"
    then some false
    else none
