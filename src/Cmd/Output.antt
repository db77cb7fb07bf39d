-- ===== src/Cmd/Output.antt =====
-- dns/cmd/homedns-dns/main.go: the exit codes, and what is written to the two outputs, line by line.
-- The wording of a line is told by its constructor, with the values that are formatted into it.
use Prim.Native.String.{String}
use homedns_analytics.Common.{ℕ, Bool, List}
use homedns_analytics.Benchmark.Report.{Status}
use homedns_analytics.Config.Load.{LoadError}
use homedns_analytics.Health.Server.Address.{AddressError}
use homedns_analytics.Cmd.Flags.{FlagError}
use homedns_analytics.Cmd.Values.{ArgumentError}

abbrev pub exit_success : ℕ
exit_success = 0

abbrev pub exit_failure : ℕ
exit_failure = 1

abbrev pub exit_invalid_args : ℕ
exit_invalid_args = 2

-- Standard output; `progress` is a line of the progress reporter.
pub data Line (F P : Type 0) : Type 0 where
  version_text empty_line running completed : Line F P
  profile query_type output report : String → Line F P
  customized : Bool → Line F P
  queries warmup workers requests successful failed timeouts : ℕ → Line F P
  timeout sampling : ℕ → Line F P
  domains : List String → Line F P
  status : Status → Line F P
  attempted_qps successful_qps : F → Line F P
  progress : P → Line F P

-- Standard error. The message of a flag error is written by the package flag, with the usage.
pub data Complaint (E : Type 0) : Type 0 where
  server_flags : FlagError → Complaint E
  unexpected_arguments : List String → Complaint E
  missing_config : Complaint E
  bad_arguments : ArgumentError → Complaint E
  load_failed : LoadError → Complaint E
  create_failed : AddressError → Complaint E
  run_failed : E → Complaint E

pub record Outcome (F P E : Type 0) : Type 0 where
  pub code : ℕ
  pub stdout : List (Line F P)
  pub stderr : List (Complaint E)
