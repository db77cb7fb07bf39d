-- ===== src/Cmd/Samples.antt =====
-- The command line at concrete arguments.
use Prim.Native.String.{String}
use text.Mathlib.Text.{◌==◌ as str_eq}
use homedns_analytics.Common.{
  ℕ, ◌<◌, ◌^◌, ◌≡◌, ◌↔◌, refl, ap, ◌∙◌, subst, true, none, some, List, [], ◌∷◌, All, arith, GoError,
  Result, ok, err, ok_inj, if◌then◌else◌, is_blank, all_space, is_space, ◌==◌,
}
use homedns_analytics.Float.{natural_ops, natural_laws}
use homedns_analytics.Strings.{
  append, join, split_on, atoi, unsigned, digits, strip_prefix, trim_space, trim_left, trim_right,
}
use homedns_analytics.Strings.Split.{contains}
use homedns_analytics.Config.{
  default, validate, validate_listener, validate_upstream, supported_level, supported_format,
}
use homedns_analytics.Config.Load.{Documents, end_of_file, load, IsLoaded, load_iff}
use homedns_analytics.Benchmark.Suite.{resolve_profile}
use homedns_analytics.Benchmark.Summary.{BenchmarkSummary, new_benchmark_summary}
use homedns_analytics.Benchmark.Service.{ServiceEnv, ServiceResult, ServiceRunError}
use homedns_analytics.App.Local.{
  local_net, local_laws, natural_ints, configured, configured-IsAccepted,
}
use homedns_analytics.App.Benchmark.{RunBenchmarkError, SystemEnv, prepare_options, bad_options}
use homedns_analytics.App.Options.{
  BenchmarkOptions, default_benchmark_options, missing_config_path, missing_output,
}
use homedns_analytics.Cmd.Flags.{parse, parse_one, read_token, flag_token, cut}
use homedns_analytics.Cmd.Options.{
  FlagValues, benchmark_formal, set_benchmark_flag, benchmark_arguments, options_of_flags,
  profile_options, explicit_options, check_counts, is_listed,
}
use homedns_analytics.Cmd.Values.{parse_benchmark_domains, trim_domains}
use homedns_analytics.Cmd.Options.Given.{Given}
use homedns_analytics.Cmd.Options.Domains.{IsDomain, parse_domains-join}
use homedns_analytics.Cmd.Options.Prepared.{benchmark_arguments-prepare_options}
use homedns_analytics.Cmd.Output.{exit_success}
use homedns_analytics.Cmd.Benchmark.{BenchmarkEnv, run_benchmark_command}
use homedns_analytics.Cmd.Benchmark.Exit.{IsRun, Completed, exit_success_iff}
use homedns_analytics.Cmd.Benchmark.Errors.{
  IsTyped, app_env, command_complaints, expected_complaint,
}

abbrev values : FlagValues
unfolding atoi
values = record { parse_int = atoi; parse_duration = λ s. none }

abbrev file : Documents
file = record { decode = λ c. ok configured; following = end_of_file }

abbrev open_file : String → Result GoError Documents
open_file path = ok file

file-IsTyped : IsTyped open_file
unfolding default
file-IsTyped path d c o k =
    let same : file ≡ d = ok_inj {E = GoError} o in
    let decoded : ok configured ≡ ok c = ap (λ d. d.decode default) same ∙ k in
    subst (λ c. (c.server.port < 2 ^ 64) × (c.health.port < 2 ^ 64)) (ok_inj {E = GoError} decoded)
      (omega arith, omega arith)

abbrev arguments : List String
arguments = "--config" ∷ "/etc/homedns.yaml" ∷ "-queries=20" ∷ "--domains" ∷ "a.test, b.test" ∷ []

abbrev chosen : BenchmarkOptions
chosen = record {
  profile = "quick";
  profile_customized = true;
  config_path = "/etc/homedns.yaml";
  output_directory = "benchmarks/runs";
  query_count = 20;
  warmup_queries = 10;
  concurrent_workers = 10;
  timeout = 0;
  resource_sampling_interval = 1_000_000_000;
  query_names = "a.test" ∷ "b.test" ∷ [];
  query_type = 1;
}

arguments_ok : benchmark_arguments values arguments ≡ ok chosen
unfolding benchmark_arguments parse parse_one read_token flag_token cut strip_prefix
    benchmark_formal set_benchmark_flag atoi unsigned digits options_of_flags resolve_profile
    profile_options explicit_options check_counts is_listed parse_benchmark_domains trim_domains
    split_on trim_space trim_left trim_right is_space default_benchmark_options
arguments_ok = refl

-- Four flags are given; the profile is left out.
abbrev some_flags : Given values
unfolding atoi
some_flags = record {
  config = "/etc/homedns.yaml";
  profile = none;
  output = some "runs";
  queries = some (record { text = "40"; value = 40; reads = refl });
  warmup = some (record { text = "3"; value = 3; reads = refl });
  concurrency = none;
  timeout = none;
  query_type = some "aaaa";
  domains = none;
}

abbrev forty : BenchmarkOptions
forty = record {
  profile = "quick";
  profile_customized = true;
  config_path = "/etc/homedns.yaml";
  output_directory = "runs";
  query_count = 40;
  warmup_queries = 3;
  concurrent_workers = 10;
  timeout = 0;
  resource_sampling_interval = 1_000_000_000;
  query_names = "example.com." ∷ "cloudflare.com." ∷ "google.com." ∷ "github.com." ∷ [];
  query_type = 28;
}

a-IsDomain : IsDomain "a.test"
unfolding trim_space trim_left trim_right is_space contains
a-IsDomain = record { trimmed = refl; nonempty = refl; free = refl }

parse_domains-join_example :
    parse_benchmark_domains (join "," ("a.test" ∷ "a.test" ∷ [])) ≡ ok ("a.test" ∷ "a.test" ∷ [])
parse_domains-join_example =
    parse_domains-join "a.test" ("a.test" ∷ []) (a-IsDomain, (a-IsDomain, tt))

benchmark_arguments-prepare_options_example :
    (t : ℕ) × (names : List String) × (◌≡◌ {A = Result (RunBenchmarkError ℕ) BenchmarkOptions}
      (prepare_options (λ n. n) configured chosen)
      (if is_blank chosen.config_path
        then err (bad_options missing_config_path)
        else if str_eq chosen.output_directory ""
        then err (bad_options missing_output)
        else ok (record chosen { timeout = t; query_names = names })))
benchmark_arguments-prepare_options_example =
    benchmark_arguments-prepare_options local_net (λ n. n) configured values arguments chosen
      configured-IsAccepted (λ n h. h) arguments_ok

load_iff_example :
    (load local_net open_file "/etc/homedns.yaml" ≡ ok configured)
    ↔ IsLoaded local_net open_file "/etc/homedns.yaml" configured
load_iff_example = load_iff local_net open_file "/etc/homedns.yaml" configured

abbrev result : ServiceResult (BenchmarkSummary ℕ)
unfolding new_benchmark_summary
result = record {
  report = new_benchmark_summary natural_ops;
  path = "benchmarks/runs/benchmark-1.json";
}

abbrev env : BenchmarkEnv ℕ ℕ ℕ
env = record {
  open_file = open_file;
  run_benchmark = λ c o. (3 ∷ [], ok result);
  type_name = λ t. if t == 1 then "A" else "AAAA";
}

arguments-IsRun : IsRun local_net values env arguments chosen configured (3 ∷ []) result
unfolding load default validate validate_listener validate_upstream supported_level supported_format
    is_blank all_space is_space
arguments-IsRun = record {
  arguments = arguments_ok;
  loaded = (load_iff local_net open_file "/etc/homedns.yaml" configured).0 refl;
  benchmark = refl;
}

exit_success_iff_example :
    ((run_benchmark_command local_net values env arguments).code ≡ exit_success)
    ↔ Completed local_net values env arguments
exit_success_iff_example = exit_success_iff local_net values env arguments

exits_with_success : (run_benchmark_command local_net values env arguments).code ≡ exit_success
exits_with_success =
    exit_success_iff_example.1 (chosen, configured, 3 ∷ [], result, arguments-IsRun)

abbrev system : SystemEnv
system = record { hostname = ok "pi"; own_pid = 77; target_pid = λ path. ok 42 }

abbrev service : ServiceEnv ℕ ℕ (BenchmarkSummary ℕ)
service = record {
  stamp = "1";
  join_path = λ d f. append d (append "/" f);
  run_report = λ c. err 9;
  write_report = λ p r. none;
}

abbrev whole : BenchmarkEnv ℕ ℕ (RunBenchmarkError (ServiceRunError ℕ))
whole =
    app_env natural_ops local_net (λ n. n) system service values open_file (λ c o. 1 ∷ 2 ∷ [])
      (λ t. "A")

command_complaints_example :
    All
      (λ c. expected_complaint c ≡ true)
      (run_benchmark_command local_net values whole arguments).stderr
command_complaints_example =
    command_complaints natural_ops local_net (λ n. n) system service values open_file
      (λ c o. 1 ∷ 2 ∷ []) (λ t. "A") local_laws natural_laws natural_ints refl (λ n h. h)
      file-IsTyped arguments
