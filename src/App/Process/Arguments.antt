-- ===== src/App/Process/Arguments.antt =====
-- dns/internal/app/benchmark_process_linux.go: the arguments of a process, as /proc shows them.
use Prim.Native.Char.{Char}
use Prim.Native.String.{String}
use text.Mathlib.Text.{◌==◌ as str_eq}
use text.Mathlib.TextEquality.{eq_iff}
use homedns_analytics.Common.{
  ◌≡◌, refl, ap, false, Option, none, some, List, [], ◌∷◌, arith, All, if◌then◌else◌, Bool-cases,
  inl, inr,
}
use homedns_analytics.Strings.{is_empty, split_on, append, strip_prefix}
use homedns_analytics.Strings.Split.{IsFree, split_on-append}
use homedns_analytics.App.Process.{
  parse_process_command_line, nonempty_parts, is_home_dns_server_process, has_benchmark,
  uses_configuration, same_configuration_path,
}

abbrev pub nul : Char
nul = "\0"

-- The content of `cmdline`: every argument is followed by a NUL.
unfoldable pub command_line : List String → String
command_line [] = ""
command_line (a ∷ rest) = append a (String.◌∷◌ nul (command_line rest))

-- An argument that can be told from the padding.
abbrev pub IsArgument : String → Type 0
IsArgument a = (is_empty a ≡ false) × IsFree 0 a

-- The arguments of a process come back from its command line in /proc, if none is empty or has a NUL
-- in it.
pub parse-command_line :
    (args : List String)
    → All IsArgument args
    → parse_process_command_line (command_line args) ≡ args
unfolding parse_process_command_line command_line split_on nonempty_parts
parse-command_line [] h = refl
parse-command_line (a ∷ rest) h =
    let ih = parse-command_line rest h.1 in
    let cut = split_on-append nul a (command_line rest) h.0.1 in
    rw (cut, h.0.0) (ap (λ l. a ∷ l) ih)

differs_by_prefix :
    (s t value : String)
    → strip_prefix "--config=" s ≡ some value
    → strip_prefix "--config=" t ≡ none
    → str_eq s t ≡ false
differs_by_prefix s t value a b = elim (Bool-cases (str_eq s t)) [
  | inl e ↦
      let same : strip_prefix "--config=" s ≡ strip_prefix "--config=" t =
        ap (strip_prefix "--config=") ((eq_iff s t).0 e) in
      absurd (ground (arith, a, b, same))
  | inr e ↦ e
]

joined_configuration :
    (cwd : Option String) (path config : String) (rest : List String)
    → uses_configuration cwd config (append "--config=" path ∷ rest)
      ≡ same_configuration_path cwd path config
unfolding uses_configuration strip_prefix
joined_configuration cwd path config [] =
    rw (differs_by_prefix (append "--config=" path) "--config" path refl refl) refl
joined_configuration cwd path config (b ∷ rest) =
    rw (differs_by_prefix (append "--config=" path) "--config" path refl refl) refl

-- A server that gets its configuration by `--config path` or by `--config=path` first is recognised
-- exactly if that path is the one looked for and `benchmark` is not among the other arguments.
pub server_recognised :
    (cwd : Option String) (program path config : String) (rest : List String)
    → (is_home_dns_server_process cwd (program ∷ "--config" ∷ path ∷ rest) config
        ≡ (if has_benchmark (path ∷ rest) then false else same_configuration_path cwd path config))
      × (is_home_dns_server_process cwd (program ∷ append "--config=" path ∷ rest) config
          ≡ (if has_benchmark rest then false else same_configuration_path cwd path config))
unfolding is_home_dns_server_process has_benchmark uses_configuration strip_prefix
server_recognised cwd program path config rest = (
  ground arith,
  rw (differs_by_prefix (append "--config=" path) "benchmark" path refl refl) (
      ap (λ u. if has_benchmark rest then false else u)
        (joined_configuration cwd path config rest)),
)

-- A server that was started with `-config path`, which the command line of the program accepts as
-- well, is never recognised.
pub single_dash_missed :
    (cwd : Option String) (program path config : String)
    → strip_prefix "--config=" path ≡ none
    → is_home_dns_server_process cwd (program ∷ "-config" ∷ path ∷ []) config ≡ false
unfolding is_home_dns_server_process has_benchmark uses_configuration strip_prefix
single_dash_missed cwd program path config h = ground arith
