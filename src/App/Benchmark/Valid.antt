-- ===== src/App/Benchmark/Valid.antt =====
-- dns/internal/app/benchmark.go and dns/internal/benchmark: the configuration that `RunBenchmark` makes
-- from valid options and an accepted configuration passes the validations of the service.
use Prim.Native.String.{String}
use text.Mathlib.Text.{◌==◌ as str_eq}
use text.Mathlib.TextEquality.{eq_iff}
use homedns_analytics.Common.{
  ℕ, ◌<◌, ◌^◌, ◌≡◌, refl, ap, true, false, none, arith, is_positive, is_negative, ltb_signed, leb,
  is_blank, ◌==◌, Bool-cases, inl, inr,
}
use homedns_analytics.App.Benchmark.Ready.{IsReady}
use homedns_analytics.Float.{FloatOps, FloatLaws}
use homedns_analytics.Net.{NetOps, NetLaws}
use homedns_analytics.Config.{Config, dns_address}
use homedns_analytics.Config.Accepted.{IsAccepted}
use homedns_analytics.Benchmark.Progress.{Phase}
use homedns_analytics.Benchmark.Scenario.{
  validate_scenario, path_config, direct_path, forwarded_path,
}
use homedns_analytics.Benchmark.Path.{any_blank, is_host_port, supported_protocol, supported_type}
use homedns_analytics.Benchmark.Scenario.Paths.{IsPath, validate_path-none}
use homedns_analytics.Benchmark.Classify.{validate_status_thresholds, resolved_status_thresholds}
use homedns_analytics.Benchmark.Suite.{
  SuiteConfig, scenario, scenarios, validate_suite, validate_scenarios, default_suite_config,
}
use homedns_analytics.Benchmark.Service.{validate_service, validate_collection}
use homedns_analytics.App.Benchmark.{benchmark_suite, service_config, no_thresholds}
use homedns_analytics.App.Options.{BenchmarkOptions, no_name}

nonblank-nonempty : (s : String) → is_blank s ≡ false → str_eq s "" ≡ false
unfolding is_blank
nonblank-nonempty s h = elim (Bool-cases (str_eq s "")) [
  | inl e ↦ let blank = ap is_blank ((eq_iff s "").0 e) in absurd (ground (arith, h, blank))
  | inr e ↦ e
]

-- `float64` of small integers keeps their order.
pub record IntLaws {F : Type 0} (ops : FloatOps F) : Type 0 where
  pub le_of_int :
      (a b : ℕ) → a < 2 ^ 53 → b < 2 ^ 53 → ops.le (ops.of_int a) (ops.of_int b) ≡ leb a b

-- Without thresholds of its own a benchmark has the usual ones, which are in order.
thresholds_valid :
    {F : Type 0} (ops : FloatOps F)
    → FloatLaws ops
    → IntLaws ops
    → validate_status_thresholds ops (resolved_status_thresholds ops (no_thresholds ops)) ≡ none
unfolding validate_status_thresholds resolved_status_thresholds
thresholds_valid ops fl il =
    let zero_ok : ops.le (ops.of_int 0) (ops.of_int 0) ≡ true =
      il.le_of_int 0 0 (omega arith) (omega arith) in
    let one_ok : ops.le (ops.of_int 1) (ops.of_int 1) ≡ true =
      il.le_of_int 1 1 (omega arith) (omega arith) in
    let five_ok : ops.le (ops.of_int 5) (ops.of_int 5) ≡ true =
      il.le_of_int 5 5 (omega arith) (omega arith) in
    let zero_one : ops.le (ops.of_int 0) (ops.of_int 1) ≡ true =
      il.le_of_int 0 1 (omega arith) (omega arith) in
    let zero_five : ops.le (ops.of_int 0) (ops.of_int 5) ≡ true =
      il.le_of_int 0 5 (omega arith) (omega arith) in
    let one_five : ops.le (ops.of_int 1) (ops.of_int 5) ≡ true =
      il.le_of_int 1 5 (omega arith) (omega arith) in
    let same = fl.eq-le _ _ zero_ok zero_ok in
    let a = fl.lt-le _ _ one_ok zero_ok in
    let b = fl.lt-le _ _ five_ok zero_ok in
    let c = fl.lt-le _ _ five_ok one_ok in
    ground (arith, zero_ok, zero_one, zero_five, one_five, same, a, b, c)

-- An address that a path can be sent to.
pub record IsTarget (net : NetOps) (a : String) : Type 0 where
  nonblank : is_blank a ≡ false
  parts : is_host_port net a ≡ true

module _ (net : NetOps) where
  upstream-IsTarget : (c : Config) → IsAccepted net c → IsTarget net c.upstream.address
  unfolding is_host_port
  upstream-IsTarget c v =
      let (host, port, e, h, p, l) = v.upstream.parts in
      record { nonblank = v.upstream.nonempty; parts = ground (arith, e, h, p) }

  dns_address-IsTarget :
      NetLaws net → (c : Config) → IsAccepted net c → IsTarget net (dns_address net c)
  unfolding is_host_port dns_address
  dns_address-IsTarget laws c v =
      let ip = v.server.ip in
      let (t, e, b) = laws.split_joined c.server.listen_address c.server.port ip in
      let h = laws.ip_nonblank c.server.listen_address ip in
      record {
        nonblank = laws.joined_nonblank c.server.listen_address c.server.port ip;
        parts = ground (arith, e, b, h);
      }

  -- What the scenarios of a suite have in common.
  pub record IsSuite (s : SuiteConfig) : Type 0 where
    direct : IsTarget net s.direct_address
    forwarded : IsTarget net s.forwarded_address
    names : no_name s.query_names ≡ false
    no_blank : any_blank s.query_names ≡ false
    query_type : supported_type s.query_type ≡ true
    queries : is_positive s.query_count ≡ true
    timeout : is_positive s.timeout ≡ true
    warmup : is_negative s.warmup_queries ≡ false

  path_config-IsPath :
      (s : SuiteConfig) (name protocol a : String) (workers : ℕ) (phase : Phase)
      → IsSuite s
      → IsTarget net a
      → supported_protocol protocol ≡ true
      → is_positive workers ≡ true
      → ltb_signed s.query_count workers ≡ false
      → IsPath net (path_config (scenario s name protocol workers) a s.query_count workers phase)
  unfolding path_config scenario
  path_config-IsPath s name protocol a workers phase v t p w f = record {
    address = t.nonblank;
    target = t.parts;
    protocol = p;
    names = ground (arith, v.names);
    no_blank = v.no_blank;
    query_type = v.query_type;
    queries = v.queries;
    workers = w;
    fewer = f;
    timeout = v.timeout;
  }

  scenario_valid :
      (s : SuiteConfig) (name protocol : String) (workers : ℕ)
      → IsSuite s
      → str_eq name "" ≡ false
      → supported_protocol protocol ≡ true
      → is_positive workers ≡ true
      → ltb_signed s.query_count workers ≡ false
      → validate_scenario net (scenario s name protocol workers) ≡ none
  unfolding validate_scenario scenario
  scenario_valid s name protocol workers v n p w f =
      let c = scenario s name protocol workers in
      let d =
        (validate_path-none net (direct_path c)).1
          (path_config-IsPath s name protocol s.direct_address workers _ v v.direct p w f) in
      let g =
        (validate_path-none net (forwarded_path c)).1
          (path_config-IsPath s name protocol s.forwarded_address workers _ v v.forwarded p w f) in
      rw (n, v.warmup, d, g) refl

  typed : (s : SuiteConfig) → IsSuite s → (s.query_type == 0) ≡ false
  unfolding supported_type
  typed s v = ground (arith, v.query_type)

  scenarios_valid :
      (s : SuiteConfig)
      → IsSuite s
      → is_positive s.concurrent_workers ≡ true
      → ltb_signed s.query_count s.concurrent_workers ≡ false
      → validate_scenarios net (scenarios s) ≡ none
  unfolding validate_scenarios scenarios supported_protocol
  scenarios_valid s v w f =
      let single : ltb_signed s.query_count 1 ≡ false = ground (arith, v.queries) in
      let a = scenario_valid s "udp-sequential" "udp" 1 v refl refl refl single in
      let b = scenario_valid s "udp-concurrent" "udp" s.concurrent_workers v refl refl w f in
      let c = scenario_valid s "tcp-sequential" "tcp" 1 v refl refl refl single in
      let d = scenario_valid s "tcp-concurrent" "tcp" s.concurrent_workers v refl refl w f in
      ground (arith, a, b, c, d)

  suite_valid :
      (s : SuiteConfig)
      → IsSuite s
      → is_positive s.concurrent_workers ≡ true
      → ltb_signed s.query_count s.concurrent_workers ≡ false
      → validate_suite net s ≡ none
  unfolding validate_suite
  suite_valid s v w f =
      let d = nonblank-nonempty s.direct_address v.direct.nonblank in
      let g = nonblank-nonempty s.forwarded_address v.forwarded.nonblank in
      let all = scenarios_valid s v w f in
      rw (d, g, v.names, typed s v, v.warmup, v.queries, w, f, v.timeout, all) refl

  benchmark_suite-IsSuite :
      NetLaws net
      → (cfg : Config) (o : BenchmarkOptions) → IsAccepted net cfg
      → IsReady o
      → IsSuite (benchmark_suite net cfg o)
  unfolding benchmark_suite default_suite_config supported_type
  benchmark_suite-IsSuite laws cfg o a v = record {
    direct = upstream-IsTarget cfg a;
    forwarded = dns_address-IsTarget laws cfg a;
    names = v.some_name;
    no_blank = v.names;
    query_type = ground (arith, v.query_type);
    queries = v.queries;
    timeout = v.timeout;
    warmup = v.warmup;
  }

  module _ {F : Type 0} (ops : FloatOps F) where
    pub service_config_valid :
        NetLaws net
        → FloatLaws ops
        → IntLaws ops
        → (cfg : Config) (o : BenchmarkOptions) (hostname : String) (own pid : ℕ)
        → IsAccepted net cfg
        → IsReady o
        → is_positive own ≡ true
        → validate_service ops net (service_config ops net cfg o hostname own pid) ≡ none
    unfolding validate_service service_config validate_collection benchmark_suite
    service_config_valid laws fl il cfg o hostname own pid a v p =
        let suite = benchmark_suite net cfg o in
        let s = suite_valid suite (benchmark_suite-IsSuite laws cfg o a v) v.workers v.fewer in
        let t = thresholds_valid ops fl il in
        ground (arith, s, t, v.profile, v.output, v.interval, p)
