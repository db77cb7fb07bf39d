-- ===== src/App/Process/Samples.antt =====
-- Processes at concrete command lines.
use Prim.Native.String.{String}
use homedns_analytics.Common.{
  ℕ, ◌≤◌, ◌≡◌, ◌⊎◌, refl, true, false, none, some, List, [], ◌∷◌, arith, All, sum_by, length, ok,
  err, is_positive, ◌==◌, is_blank, all_space, is_space,
}
use homedns_analytics.Strings.{split_on, atoi, unsigned, digits, strip_prefix}
use homedns_analytics.Strings.Split.{contains}
use homedns_analytics.App.Process.{
  ProcEntry, parse_process_command_line, nonempty_parts, is_home_dns_server_process, has_benchmark,
  same_configuration_path, absolute, clean, push_components, push_component, uses_configuration,
  resolve_benchmark_target_pid, not_found, multiple, matches, matching_pid, other_pid,
}
use homedns_analytics.App.Process.Arguments.{command_line, parse-command_line}
use homedns_analytics.App.Process.Unique.{server_weight, Shows, IsListed, resolve_pid_cases}

abbrev server_arguments : List String
server_arguments = "/usr/bin/homedns-dns" ∷ "--config" ∷ "/etc/homedns.yaml" ∷ []

parse-command_line_example :
    parse_process_command_line (command_line server_arguments) ≡ server_arguments
unfolding contains
parse-command_line_example = parse-command_line server_arguments (ground arith)

abbrev entry : String → List String → ProcEntry
unfolding command_line
entry name args = record { name = name; is_dir = true; command_line = some (command_line args) }

abbrev listing : List ProcEntry
listing =
    record { name = "version"; is_dir = false; command_line = none }
    ∷ entry "77" ("homedns-dns" ∷ "benchmark" ∷ "--config" ∷ "/etc/homedns.yaml" ∷ [])
    ∷ entry "42" ("homedns-dns" ∷ "--config=/etc/./homedns.yaml" ∷ [])
    ∷ []

-- Two servers run with the configuration.
abbrev crowded : List ProcEntry
crowded = entry "51" ("homedns-dns" ∷ "--config" ∷ "/etc/homedns.yaml" ∷ []) ∷ listing

resolve_pid_cases_example :
    let found = sum_by (server_weight none 77 "/etc/homedns.yaml") crowded in
    let result = resolve_benchmark_target_pid none 77 "/etc/homedns.yaml" (some crowded) in
    ((found ≡ 0) × (result ≡ err not_found))
    ⊎ (((found ≡ 1)
          × (pid : ℕ) × (result ≡ ok pid)
          × All (Shows none 77 "/etc/homedns.yaml" pid) crowded
          × (is_positive pid ≡ true)
          × ((pid == 77) ≡ false))
        ⊎ ((2 ≤ found)
            × (pids : List ℕ) × (result ≡ err (multiple pids))
            × (length pids ≡ found)
            × IsListed none 77 "/etc/homedns.yaml" crowded pids))
unfolding is_blank all_space is_space
resolve_pid_cases_example = resolve_pid_cases none 77 "/etc/homedns.yaml" crowded refl

-- The server is found under its other spelling of the path.
server_found : resolve_benchmark_target_pid none 77 "/etc/homedns.yaml" (some listing) ≡ ok 42
unfolding resolve_benchmark_target_pid matches matching_pid other_pid atoi unsigned digits
    parse_process_command_line nonempty_parts split_on is_home_dns_server_process has_benchmark
    uses_configuration same_configuration_path absolute clean push_components push_component
    strip_prefix is_blank all_space is_space command_line
server_found = refl

two_servers :
    resolve_benchmark_target_pid none 77 "/etc/homedns.yaml" (some crowded)
    ≡ err (multiple (51 ∷ 42 ∷ []))
unfolding resolve_benchmark_target_pid matches matching_pid other_pid atoi unsigned digits
    parse_process_command_line nonempty_parts split_on is_home_dns_server_process has_benchmark
    uses_configuration same_configuration_path absolute clean push_components push_component
    strip_prefix is_blank all_space is_space command_line
two_servers = refl
