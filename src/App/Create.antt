-- ===== src/App/Create.antt =====
-- dns/internal/app/app.go: `New` composes the application from a configuration, with the logger that
-- `newLogger` makes. The log/slog handlers are told by their kind and level.
use Prim.Native.String.{String}
use text.Mathlib.Text.{◌==◌ as str_eq}
use homedns_analytics.Common.{
  ℕ, ◌≡◌, ◌⊎◌, refl, Bool, true, false, Option, none, some, arith, Result, ok, err, is_blank,
  is_some, if◌then◌else◌, Option-cases, inl, inr,
}
use homedns_analytics.Net.{NetOps, NetLaws}
use homedns_analytics.Config.{Config, LoggingConfig, dns_address, health_address}
use homedns_analytics.Config.Accepted.{IsAccepted}
use homedns_analytics.DnsServer.Lifecycle as Dns
use homedns_analytics.Health.Server as HealthServer
use homedns_analytics.Health.Server.Address.{
  AddressError, make_server, validate_loopback_address, validate_host,
}
use homedns_analytics.App.{App, new_app}

pub data Level : Type 0 where
  debug info warn error : Level

pub data LogHandler : Type 0 where
  text_handler json_handler : Level → LogHandler

-- `newLogger`
abbrev pub level_of : String → Level
level_of level =
    if str_eq level "debug"
    then debug
    else if str_eq level "warn"
    then warn
    else if str_eq level "error"
    then error
    else info

unfoldable pub new_logger : LoggingConfig → LogHandler
new_logger c =
    if str_eq c.format "text"
    then text_handler (level_of c.level)
    else json_handler (level_of c.level)

-- What the parts of the application are made of.
pub record Parts : Type 0 where
  pub logger : LogHandler
  pub upstream_address : String
  pub upstream_timeout : ℕ
  pub dns : Dns.Config
  pub dns_address : String
  pub health_address : String
  pub app : App

abbrev pub parts_of : NetOps → Config → HealthServer.Server → Parts
parts_of net cfg health = record {
  logger = new_logger cfg.logging;
  upstream_address = cfg.upstream.address;
  upstream_timeout = cfg.upstream.timeout;
  dns = record { address_blank = is_blank (dns_address net cfg); has_handler = true };
  dns_address = dns_address net cfg;
  health_address = health_address net cfg;
  app = record { dns = Dns.new_server; health = health };
}

-- `NewServer` of the health server gives an error or a server, so the second case does not occur.
abbrev pub composed :
    NetOps → Config → Option AddressError × Option HealthServer.Server → Result AddressError Parts
composed net cfg (some e, s) = err e
composed net cfg (none, none) = err AddressError.invalid_address
composed net cfg (none, some health) = ok (parts_of net cfg health)

-- `New`
unfoldable pub new_application : NetOps → Config → Result AddressError Parts
new_application net cfg = composed net cfg (make_server net (health_address net cfg) true)

-- The text of an IP address has no space around it and is not `localhost`.
pub record HostLaws (net : NetOps) : Type 0 where
  pub trim_ip : (h : String) → is_some (net.parse_ip h) ≡ true → net.trim_space h ≡ h
  pub ip-not-localhost : (h : String) → is_some (net.parse_ip h) ≡ true → net.is_localhost h ≡ false

module _ (net : NetOps) (laws : NetLaws net) (hosts : HostLaws net) (cfg : Config)
    (a : IsAccepted net cfg) where
  -- The health server of an accepted configuration is refused exactly for an address that is not
  -- loopback.
  checked_host :
      (loopback : Bool)
      → net.parse_ip cfg.health.listen_address ≡ some loopback
      → validate_loopback_address net (health_address net cfg)
        ≡ (if loopback then none else some AddressError.public_address)
  unfolding health_address validate_loopback_address validate_host
  checked_host loopback p =
      let host = cfg.health.listen_address in
      let (t, split, b) = laws.split_joined host cfg.health.port a.health.ip in
      let trimmed = hosts.trim_ip host a.health.ip in
      let local = hosts.ip-not-localhost host a.health.ip in
      rw (split, validate_loopback_address) (rw trimmed (rw (local, validate_host) (rw p refl)))

  made :
      (loopback : Bool)
      → net.parse_ip cfg.health.listen_address ≡ some loopback
      → make_server net (health_address net cfg) true ≡ (
          if loopback
          then (none, some HealthServer.new_server)
          else (some AddressError.public_address, none))
  unfolding make_server health_address
  made true p =
      let filled = laws.joined_nonblank cfg.health.listen_address cfg.health.port a.health.ip in
      rw filled (rw (checked_host true p) refl)
  made false p =
      let filled = laws.joined_nonblank cfg.health.listen_address cfg.health.port a.health.ip in
      rw filled (rw (checked_host false p) refl)

  -- `New` makes an application of an accepted configuration exactly if the health server is to listen
  -- on a loopback IP, and refuses it as public otherwise. The application that it makes is stopped, and
  -- its DNS server has an address and a handler, as its `Start` asks. The laws of the package net are
  -- assumed.
  pub new_application_cases :
      let host = cfg.health.listen_address in
      ((net.parse_ip host ≡ some true)
        × (parts : Parts) × (new_application net cfg ≡ ok parts)
        × (parts.app ≡ new_app)
        × (parts.dns ≡ record { address_blank = false; has_handler = true }))
      ⊎ ((net.parse_ip host ≡ some false)
          × (new_application net cfg ≡ err AddressError.public_address))
  unfolding new_application dns_address
  new_application_cases = elim (Option-cases (net.parse_ip cfg.health.listen_address)) [
    | inl e ↦ let ip = a.health.ip in absurd (ground (arith, ip, e))
    | inr (true, p) ↦
        let filled = laws.joined_nonblank cfg.server.listen_address cfg.server.port a.server.ip in
        inl
          (p, parts_of net cfg HealthServer.new_server, rw (made true p) refl, refl, rw filled refl)
    | inr (false, p) ↦ inr (p, rw (made false p) refl)
  ]
