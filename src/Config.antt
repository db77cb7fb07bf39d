-- ===== src/Config.antt =====
-- dns/internal/config/config.go and validate.go: the configuration of the DNS service and its
-- validation. `Validate` joins all the errors that it finds.
pub mod Accepted
pub mod Load
mod Samples
use Prim.Native.String.{String}
use text.Mathlib.Text.{◌==◌ as str_eq}
use homedns_analytics.Common.{
  ℕ, Bool, true, false, Option, none, some, List, [], ◌∷◌, ◌++◌, ◌&&◌, ◌||◌, ◌==◌, not, ltb_signed,
  is_positive, is_blank, if◌then◌else◌,
}
use homedns_analytics.Net.{NetOps}

pub record ListenerConfig : Type 0 where
  pub listen_address : String
  pub port : ℕ

pub record UpstreamConfig : Type 0 where
  pub address : String
  pub timeout : ℕ

pub record LoggingConfig : Type 0 where
  pub level : String
  pub format : String

-- `ServerConfig` and `HealthConfig` have the same fields; `ShutdownConfig` has the one field.
pub record Config : Type 0 where
  pub server : ListenerConfig
  pub upstream : UpstreamConfig
  pub health : ListenerConfig
  pub logging : LoggingConfig
  pub shutdown_timeout : ℕ

-- `Default`, with durations in nanoseconds.
unfoldable pub default : Config
default = record {
  server = record { listen_address = "127.0.0.1"; port = 5353 };
  upstream = record { address = ""; timeout = 3_000_000_000 };
  health = record { listen_address = "127.0.0.1"; port = 8081 };
  logging = record { level = "info"; format = "json" };
  shutdown_timeout = 5_000_000_000;
}

pub data ListenerError : Type 0 where
  invalid_ip invalid_port : ListenerError

pub data UpstreamError : Type 0 where
  empty_address not_host_port missing_host missing_port unknown_port : UpstreamError

pub data ConfigError : Type 0 where
  server_listener health_listener : List ListenerError → ConfigError
  upstream : UpstreamError → ConfigError
  upstream_timeout shutdown_timeout same_listener unsupported_level unsupported_format : ConfigError

-- `if e != nil { validationErrors = append(validationErrors, e) }`
abbrev pub check : {E : Type 0} → Bool → E → List E
check bad e = if bad then e ∷ [] else []

abbrev pub joined : (List ListenerError → ConfigError) → List ListenerError → List ConfigError
joined wrap [] = []
joined wrap (e ∷ es) = wrap (e ∷ es) ∷ []

abbrev pub optional : Option UpstreamError → List ConfigError
optional none = []
optional (some e) = upstream e ∷ []

abbrev is_none : Option Bool → Bool
is_none none = true
is_none (some b) = false

unfoldable pub supported_level : String → Bool
supported_level s = str_eq s "debug" || str_eq s "info" || str_eq s "warn" || str_eq s "error"

unfoldable pub supported_format : String → Bool
supported_format s = str_eq s "json" || str_eq s "text"

module _ (net : NetOps) where
  open net use {parse_ip, split_host_port, lookup_port}

  unfoldable pub validate_listener : ListenerConfig → List ListenerError
  validate_listener c =
      check (is_none (parse_ip c.listen_address)) invalid_ip
      ++ check (ltb_signed c.port 1 || ltb_signed 65535 c.port) invalid_port

  unfoldable pub validate_upstream : String → Option UpstreamError
  validate_upstream address =
      if is_blank address then some empty_address else elim (split_host_port address) [
        | none ↦ some not_host_port
        | some (host, port) ↦
            if is_blank host
            then some missing_host
            else if is_blank port
            then some missing_port
            else if lookup_port port
            then none
            else some unknown_port
      ]

  unfoldable pub validate : Config → List ConfigError
  validate c =
      joined server_listener (validate_listener c.server)
      ++ joined health_listener (validate_listener c.health)
      ++ optional (validate_upstream c.upstream.address)
      ++ check (not (is_positive c.upstream.timeout)) upstream_timeout
      ++ check (not (is_positive c.shutdown_timeout)) shutdown_timeout
      ++ check
          (str_eq c.server.listen_address c.health.listen_address && c.server.port == c.health.port)
          same_listener
      ++ check (not (supported_level c.logging.level)) unsupported_level
      ++ check (not (supported_format c.logging.format)) unsupported_format

  -- `DNSAddress` and `HealthAddress`.
  unfoldable pub dns_address : Config → String
  dns_address c = net.join_host_port c.server.listen_address c.server.port

  unfoldable pub health_address : Config → String
  health_address c = net.join_host_port c.health.listen_address c.health.port
