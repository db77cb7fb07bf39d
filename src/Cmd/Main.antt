-- ===== src/Cmd/Main.antt =====
-- dns/cmd/homedns-dns/main.go: `run` chooses the command.
use Prim.Native.String.{String}
use text.Mathlib.Text.{◌==◌ as str_eq}
use homedns_analytics.Common.{
  ◌≡◌, ◌⊎◌, inl, inr, refl, Bool-cases, List, [], ◌∷◌, Result, ok, err, if◌then◌else◌, length,
}
use homedns_analytics.Net.{NetOps}
use homedns_analytics.Config.Load.{LoadError}
use homedns_analytics.Config.{Config}
use homedns_analytics.Benchmark.Summary.{BenchmarkSummary}
use homedns_analytics.Benchmark.Service.{ServiceResult}
use homedns_analytics.App.Options.{BenchmarkOptions}
use homedns_analytics.Cmd.Options.{FlagValues, benchmark_arguments}
use homedns_analytics.Cmd.Values.{ArgumentError}
use homedns_analytics.Cmd.Output.{Outcome, Line, exit_success, exit_failure, exit_invalid_args}
use homedns_analytics.Cmd.Server.{
  ServerEnv, run_server, server_ending, outcome_of, Ending, served, shown, refused, failed,
}
use homedns_analytics.Cmd.Benchmark.{
  BenchmarkEnv, run_benchmark_command, with_options, with_config, finished,
}

-- `run`
unfoldable pub run_program :
    {F P E : Type 0}
    → NetOps
    → FlagValues
    → ServerEnv E
    → BenchmarkEnv F P E
    → List String
    → Outcome F P E
run_program net vals server benchmark [] = run_server net server []
run_program net vals server benchmark (a ∷ args) =
    if str_eq a "benchmark"
    then run_benchmark_command net vals benchmark args
    else run_server net server (a ∷ args)

-- How an outcome may look: success without a complaint, or an error code with just one.
abbrev pub Orderly : {F P E : Type 0} → Outcome F P E → Type 0
Orderly out =
    ((out.code ≡ exit_success) × (out.stderr ≡ []))
    ⊎ (((out.code ≡ exit_failure) ⊎ (out.code ≡ exit_invalid_args)) × (length out.stderr ≡ 1))

outcome_of-Orderly :
    (F P : Type 0) {E : Type 0} (e : Ending E) → Orderly (outcome_of {F = F} {P = P} e)
outcome_of-Orderly F P served = inl (refl, refl)
outcome_of-Orderly F P shown = inl (refl, refl)
outcome_of-Orderly F P (refused c) = inr (inr refl, refl)
outcome_of-Orderly F P (failed c) = inr (inl refl, refl)

module _ {F P E : Type 0} (net : NetOps) (vals : FlagValues) (server : ServerEnv E)
    (benchmark : BenchmarkEnv F P E) where
  finished-Orderly :
      (before : List (Line F P)) (r : Result E (ServiceResult (BenchmarkSummary F)))
      → Orderly (finished before r)
  finished-Orderly before (err e) = inr (inl refl, refl)
  finished-Orderly before (ok r) = inl (refl, refl)

  with_config-Orderly :
      (o : BenchmarkOptions) (r : Result LoadError Config)
      → Orderly (with_config net vals benchmark o r)
  with_config-Orderly o (err e) = inr (inl refl, refl)
  with_config-Orderly o (ok cfg) = finished-Orderly _ (benchmark.run_benchmark cfg o).1

  with_options-Orderly :
      (r : Result ArgumentError BenchmarkOptions) → Orderly (with_options net vals benchmark r)
  with_options-Orderly (err e) = inr (inr refl, refl)
  with_options-Orderly (ok o) = with_config-Orderly o _

  server-Orderly : (args : List String) → Orderly (run_server {F = F} {P = P} net server args)
  unfolding run_server
  server-Orderly args = outcome_of-Orderly F P (server_ending net server args)

  -- Whatever the arguments, the program ends with 0 and no complaint, or with 1 or 2 and exactly one.
  pub run_program-Orderly :
      (args : List String) → Orderly (run_program net vals server benchmark args)
  unfolding run_program run_benchmark_command
  run_program-Orderly [] = server-Orderly []
  run_program-Orderly (a ∷ args) = elim (Bool-cases (str_eq a "benchmark")) [
    | inl e ↦ rw e (with_options-Orderly (benchmark_arguments vals args))
    | inr e ↦ rw e (server-Orderly (a ∷ args))
  ]
