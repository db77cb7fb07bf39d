-- ===== src/App/Process.antt =====
-- dns/internal/app/benchmark_process_linux.go: how the benchmark finds the process of the server in
-- /proc. What /proc holds and the working directory are arguments.
pub mod Unique
pub mod Arguments
mod Samples
use Prim.Native.Char.{Char, code}
use Prim.Native.String.{String}
use text.Mathlib.Text.{◌==◌ as str_eq}
use homedns_analytics.Common.{
  ℕ, Bool, true, false, not, ◌&&◌, ◌||◌, Option, none, some, List, [], ◌∷◌, ◌++◌, Result, ok, err,
  ◌==◌, is_positive, is_blank, if◌then◌else◌,
}
use homedns_analytics.Strings.{is_empty, split_on, join, append, strip_prefix, atoi}

-- The parts of `filepath.Clean`: the components of the path so far, the last first. A component
-- `..` takes back the one before it, unless there is none; at the root it then goes away.
unfoldable pub push_component : Bool → String → List String → List String
push_component rooted part done =
    if is_empty part || str_eq part "."
    then done
    else if str_eq part ".."
    then up done
    else part ∷ done
  where
    up : List String → List String
    up [] = if rooted then [] else ".." ∷ []
    up (d ∷ ds) = if str_eq d ".." then ".." ∷ d ∷ ds else ds

unfoldable pub push_components : Bool → List String → List String → List String
push_components rooted [] done = done
push_components rooted (p ∷ ps) done = push_components rooted ps (push_component rooted p done)

-- The character `/`.
abbrev pub slash : Char
slash = "/"

abbrev pub is_rooted : String → Bool
is_rooted String.[] = false
is_rooted (String.◌∷◌ c s) = code c == b'/'

-- A cleaned path: whether it starts at the root, and its components, the last first. The text that
-- `filepath.Clean` returns is these components behind the root, or "." if there is nothing, so that
-- two paths have the same text exactly if they are equal here.
pub record CleanPath : Type 0 where
  pub rooted : Bool
  pub components : List String

unfoldable pub clean : String → CleanPath
unfolding push_components push_component
clean s = record {
  rooted = is_rooted s;
  components = push_components (is_rooted s) (split_on b'/' s) [];
}

-- `filepath.Abs` in the working directory `cwd`, `none` if that cannot be read.
unfoldable pub absolute : Option String → String → Option CleanPath
unfolding clean
absolute cwd s =
    if is_rooted s
    then some (clean s)
    else elim cwd [ none ↦ none | some dir ↦ some (clean (append dir (String.◌∷◌ slash s))) ]

abbrev pub same_list : List String → List String → Bool
same_list [] [] = true
same_list (x ∷ xs) (y ∷ ys) = str_eq x y && same_list xs ys
same_list _ _ = false

abbrev pub same_bool : Bool → Bool → Bool
same_bool true b = b
same_bool false b = not b

abbrev pub same_path : CleanPath → CleanPath → Bool
same_path p q = same_bool p.rooted q.rooted && same_list p.components q.components

-- A path from `filepath.Abs` is clean, so that the second `filepath.Clean` of it is left out.
unfoldable pub same_configuration_path : Option String → String → String → Bool
same_configuration_path cwd actual expected = elim (absolute cwd actual) [
  | none ↦ same_path (clean actual) (clean expected)
  | some p ↦ elim (absolute cwd expected) [
    | none ↦ same_path (clean actual) (clean expected)
    | some q ↦ same_path p q
  ]
]

-- `parseProcessCommandLine`; the content is read as UTF-8.
unfoldable pub nonempty_parts : List String → List String
nonempty_parts [] = []
nonempty_parts (p ∷ ps) = let rest = nonempty_parts ps in if is_empty p then rest else p ∷ rest

unfoldable pub parse_process_command_line : String → List String
unfolding nonempty_parts
parse_process_command_line content = nonempty_parts (split_on 0 content)

unfoldable pub has_benchmark : List String → Bool
has_benchmark [] = false
has_benchmark (a ∷ as') = str_eq a "benchmark" || has_benchmark as'

-- The second loop of `isHomeDNSServerProcess`, over the arguments behind the first.
unfoldable pub uses_configuration : Option String → String → List String → Bool
uses_configuration cwd config_path [] = false
uses_configuration cwd config_path (a ∷ []) =
    if str_eq a "--config" then false else elim (strip_prefix "--config=" a) [
      | some value ↦ same_configuration_path cwd value config_path
      | none ↦ false
    ]
uses_configuration cwd config_path (a ∷ b ∷ rest) =
    let later = uses_configuration cwd config_path (b ∷ rest) in
    if str_eq a "--config"
    then same_configuration_path cwd b config_path
    else elim (strip_prefix "--config=" a) [
      | some value ↦ same_configuration_path cwd value config_path
      | none ↦ later
    ]

unfoldable pub is_home_dns_server_process : Option String → List String → String → Bool
unfolding has_benchmark uses_configuration
is_home_dns_server_process cwd [] config_path = false
is_home_dns_server_process cwd (program ∷ arguments) config_path =
    if has_benchmark arguments then false else uses_configuration cwd config_path arguments

-- An entry of /proc, with the content of its file `cmdline` where that can be read.
pub record ProcEntry : Type 0 where
  pub name : String
  pub is_dir : Bool
  pub command_line : Option String

pub data PidError : Type 0 where
  missing_path unreadable_proc not_found : PidError
  multiple : List ℕ → PidError

-- The number of an entry that names another process.
unfoldable pub other_pid : ℕ → ProcEntry → Option ℕ
other_pid own e =
    if e.is_dir
    then elim (atoi e.name) [
      | none ↦ none
      | some pid ↦ if is_positive pid && not (pid == own) then some pid else none
    ]
    else none

-- The body of the loop: the number of an entry that matches.
unfoldable pub matching_pid : Option String → ℕ → String → ProcEntry → Option ℕ
unfolding other_pid
matching_pid cwd own config_path e = elim (other_pid own e) [
  | none ↦ none
  | some pid ↦ elim e.command_line [
    | none ↦ none
    | some content ↦
        if is_home_dns_server_process cwd (parse_process_command_line content) config_path
        then some pid
        else none
  ]
]

abbrev pub add_match : Option ℕ → List ℕ → List ℕ
add_match none pids = pids
add_match (some pid) pids = pid ∷ pids

unfoldable pub matches : Option String → ℕ → String → List ProcEntry → List ℕ
matches cwd own config_path [] = []
matches cwd own config_path (e ∷ es) =
    add_match (matching_pid cwd own config_path e) (matches cwd own config_path es)

abbrev pub the_only : List ℕ → Result PidError ℕ
the_only [] = err not_found
the_only (pid ∷ []) = ok pid
the_only (pid ∷ pid' ∷ pids) = err (multiple (pid ∷ pid' ∷ pids))

-- `resolveBenchmarkTargetPID`; `none` is a /proc that cannot be listed.
unfoldable pub resolve_benchmark_target_pid :
    Option String → ℕ → String → Option (List ProcEntry) → Result PidError ℕ
unfolding matches
resolve_benchmark_target_pid cwd own config_path proc =
    if is_blank config_path then err missing_path else elim proc [
      | none ↦ err unreadable_proc
      | some entries ↦ the_only (matches cwd own config_path entries)
    ]
