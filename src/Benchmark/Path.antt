-- ===== src/Benchmark/Path.antt =====
-- dns/internal/benchmark/config.go: the configuration of a path, and which paths may run.
use Prim.Native.String.{String}
use text.Mathlib.Text.{◌==◌ as str_eq}
use homedns_analytics.Common.{
  ℕ, Bool, true, false, not, Option, none, some, List, [], ◌∷◌, ◌&&◌, ◌||◌, ◌==◌, is_positive,
  ltb_signed, is_blank, if◌then◌else◌,
}
use homedns_analytics.Net.{NetOps}
use homedns_analytics.Benchmark.Progress.{Phase}

pub record PathConfig : Type 0 where
  pub address : String
  pub protocol : String
  pub query_names : List String
  pub query_type : ℕ
  pub query_count : ℕ
  pub concurrency : ℕ
  pub timeout : ℕ
  pub scenario_name : String
  pub phase : Phase

pub data PathError : Type 0 where
  missing_address invalid_address unsupported_protocol missing_names empty_name : PathError
  unsupported_type no_queries no_workers too_many_workers no_timeout : PathError

unfoldable pub supported_protocol : String → Bool
supported_protocol s = str_eq s "udp" || str_eq s "tcp"

-- dns.TypeA, NS, CNAME, SOA, PTR, MX, TXT and AAAA, numbered by RFC 1035 and RFC 3596.
unfoldable pub supported_type : ℕ → Bool
supported_type t = t == 1 || t == 2 || t == 5 || t == 6 || t == 12 || t == 15 || t == 16 || t == 28

abbrev pub is_empty : List String → Bool
is_empty [] = true
is_empty (x ∷ xs) = false

unfoldable pub any_blank : List String → Bool
any_blank [] = false
any_blank (x ∷ xs) = is_blank x || any_blank xs

-- `splitHostPort` succeeds.
unfoldable pub is_host_port : NetOps → String → Bool
is_host_port net address = elim (net.split_host_port address) [
  | none ↦ false
  | some (host, port) ↦ not (is_blank host) && not (is_blank port)
]

-- `PathConfig.Validate`
unfoldable pub validate_path : NetOps → PathConfig → Option PathError
validate_path net c =
    if is_blank c.address
    then some missing_address
    else if not (is_host_port net c.address)
    then some invalid_address
    else if not (supported_protocol c.protocol)
    then some unsupported_protocol
    else if is_empty c.query_names
    then some missing_names
    else if any_blank c.query_names
    then some empty_name
    else if not (supported_type c.query_type)
    then some unsupported_type
    else if not (is_positive c.query_count)
    then some no_queries
    else if not (is_positive c.concurrency)
    then some no_workers
    else if ltb_signed c.query_count c.concurrency
    then some too_many_workers
    else if not (is_positive c.timeout)
    then some no_timeout
    else none
