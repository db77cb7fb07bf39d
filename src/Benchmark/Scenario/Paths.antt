-- ===== src/Benchmark/Scenario/Paths.antt =====
-- dns/internal/benchmark/config.go and scenario.go: a scenario that validates has paths that run.
use Prim.Native.String.{String}
use text.Mathlib.Text.{◌==◌ as str_eq}
use text.Mathlib.TextPositions.{eq_refl}
use homedns_analytics.Common.{
  ◌≡◌, ◌↔◌, refl, true, false, none, arith, is_positive, ltb_signed, is_blank,
}
use homedns_analytics.Net.{NetOps}
use homedns_analytics.Benchmark.Progress.{Phase}
use homedns_analytics.Benchmark.Scenario.{
  ScenarioConfig, validate_scenario, path_config, direct_path, forwarded_path, direct_warmup,
  forwarded_warmup, new_runner_ok, run_path_ok,
}
use homedns_analytics.Benchmark.Path.{
  PathConfig, validate_path, supported_protocol, supported_type, is_host_port, any_blank, is_empty,
}

-- What `PathConfig.Validate` asks for: a target, names of a supported type over a supported
-- protocol, and at least one worker and no more workers than queries.
pub record IsPath (net : NetOps) (c : PathConfig) : Type 0 where
  pub address : is_blank c.address ≡ false
  pub target : is_host_port net c.address ≡ true
  pub protocol : supported_protocol c.protocol ≡ true
  pub names : is_empty c.query_names ≡ false
  pub no_blank : any_blank c.query_names ≡ false
  pub query_type : supported_type c.query_type ≡ true
  pub queries : is_positive c.query_count ≡ true
  pub workers : is_positive c.concurrency ≡ true
  pub fewer : ltb_signed c.query_count c.concurrency ≡ false
  pub timeout : is_positive c.timeout ≡ true

module _ (net : NetOps) where
  pub validate_path-none : (c : PathConfig) → (validate_path net c ≡ none) ↔ IsPath net c
  unfolding validate_path
  validate_path-none c = (
    λ h. record {
      address = ground arith;
      target = ground arith;
      protocol = ground arith;
      names = ground arith;
      no_blank = ground arith;
      query_type = ground arith;
      queries = ground arith;
      workers = ground arith;
      fewer = ground arith;
      timeout = ground arith;
    },
    λ v.
        rw
          (
            v.address, v.target, v.protocol, v.names, v.no_blank, v.query_type, v.queries,
            v.workers, v.fewer, v.timeout,
          )
          refl,
  )

  run_path_ok-IsPath :
      (protocol : String) (c : PathConfig)
      → str_eq protocol c.protocol ≡ true
      → IsPath net c
      → run_path_ok net protocol c ≡ true
  unfolding run_path_ok
  run_path_ok-IsPath protocol c e v =
      let valid = (validate_path-none c).1 v in ground (arith, e, valid)

  -- The warmup of a path with the same target is a path too.
  warmup-IsPath :
      (c : ScenarioConfig) (address : String) (phase phase' : Phase)
      → is_positive c.warmup_queries ≡ true
      → IsPath net (path_config c address c.query_count c.concurrency phase)
      → IsPath net (path_config c address c.warmup_queries 1 phase')
  unfolding path_config
  warmup-IsPath c address phase phase' w v = record {
    address = v.address;
    target = v.target;
    protocol = v.protocol;
    names = v.names;
    no_blank = v.no_blank;
    query_type = v.query_type;
    queries = w;
    workers = refl;
    fewer = ground (arith, w);
    timeout = v.timeout;
  }

  validate_scenario-paths :
      (c : ScenarioConfig)
      → validate_scenario net c ≡ none
      → IsPath net (direct_path c) × IsPath net (forwarded_path c)
  unfolding validate_scenario
  validate_scenario-paths c h = (
    (validate_path-none (direct_path c)).0 (ground (arith, h)),
    (validate_path-none (forwarded_path c)).0 (ground (arith, h)),
  )

  -- A scenario that validates gets a runner, and every path that it hands to the runner passes the
  -- runner's tests: the two measured paths and, if there are warmup queries, the two warmups with
  -- their single worker.
  pub scenario_paths_run :
      (c : ScenarioConfig)
      → validate_scenario net c ≡ none
      → (new_runner_ok c.protocol c.timeout ≡ true)
        × (run_path_ok net c.protocol (direct_path c) ≡ true)
        × (run_path_ok net c.protocol (forwarded_path c) ≡ true)
        × (is_positive c.warmup_queries ≡ true
            → (run_path_ok net c.protocol (direct_warmup c) ≡ true)
              × (run_path_ok net c.protocol (forwarded_warmup c) ≡ true))
  unfolding new_runner_ok path_config
  scenario_paths_run c h =
      let (d, f) = validate_scenario-paths c h in
      let same = eq_refl c.protocol in
      (
        ground (arith, d.protocol, d.timeout),
        run_path_ok-IsPath c.protocol _ same d,
        run_path_ok-IsPath c.protocol _ same f,
        λ w. (
          run_path_ok-IsPath c.protocol _ same (warmup-IsPath c _ _ _ w d),
          run_path_ok-IsPath c.protocol _ same (warmup-IsPath c _ _ _ w f),
        ),
      )
