-- ===== src/Cmd/Values.antt =====
-- dns/cmd/homedns-dns/main.go: the query type and the domains of the command line, and what is wrong with
-- arguments.
use Prim.Native.String.{String}
use homedns_analytics.Common.{ℕ, suc, List, [], ◌∷◌, Result, ok, err, bind, if◌then◌else◌}
use homedns_analytics.Strings.{split_on, trim_space, is_empty, upper_is}
use homedns_analytics.App.Options.{type_a, type_aaaa}
use homedns_analytics.Cmd.Flags.{FlagError}

-- The errors that end `runBenchmark` with the exit code of invalid arguments.
pub data ArgumentError : Type 0 where
  bad_flags : FlagError → ArgumentError
  unexpected_arguments : List String → ArgumentError
  missing_config invalid_profile nonpositive_timeout : ArgumentError
  unsupported_query_type : String → ArgumentError
  empty_domain : ℕ → ArgumentError
  no_queries negative_warmup no_workers too_many_workers : ArgumentError

-- `parseBenchmarkQueryType`
unfoldable pub parse_benchmark_query_type : String → Result ArgumentError ℕ
parse_benchmark_query_type value =
    let name = trim_space value in
    if upper_is name "A"
    then ok type_a
    else if upper_is name "AAAA"
    then ok type_aaaa
    else err (unsupported_query_type value)

-- The loop of `parseBenchmarkDomains`, from `index` on.
unfoldable pub trim_domains : ℕ → List String → Result ArgumentError (List String)
trim_domains index [] = ok []
trim_domains index (p ∷ ps) =
    let rest = trim_domains (suc index) ps in
    let name = trim_space p in
    if is_empty name then err (empty_domain index) else bind rest (λ names. ok (name ∷ names))

-- `parseBenchmarkDomains`. The check for no domain at the end is dead: splitting gives a part at least.
unfoldable pub parse_benchmark_domains : String → Result ArgumentError (List String)
parse_benchmark_domains value = trim_domains 0 (split_on b',' value)
