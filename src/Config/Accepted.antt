-- ===== src/Config/Accepted.antt =====
-- dns/internal/config/validate.go: which configurations `Validate` accepts.
use Prim.Native.String.{String}
use text.Mathlib.Text.{◌==◌ as str_eq}
use homedns_analytics.Common.{
  ◌≤◌, ◌<◌, ◌^◌, ◌≡◌, ◌↔◌, refl, Bool, true, false, Option, none, some, List, [], ◌∷◌, ◌++◌, ◌&&◌,
  arith, is_some, is_blank, ◌==◌, is_positive,
}
use homedns_analytics.Net.{NetOps}
use homedns_analytics.Config.{
  ListenerConfig, Config, ListenerError, ConfigError, UpstreamError, validate_listener,
  validate_upstream, validate, supported_level, supported_format, check, joined, optional,
  server_listener, health_listener,
}

-- A listener that the operating system can be asked for: an IP address, and a port from 1 to 65535.
pub record IsListener (net : NetOps) (c : ListenerConfig) : Type 0 where
  pub ip : is_some (net.parse_ip c.listen_address) ≡ true
  pub lowest : 1 ≤ c.port
  pub highest : c.port ≤ 65535

-- An upstream address of the form host:port, with a host and a port that can be looked up.
pub record IsUpstream (net : NetOps) (address : String) : Type 0 where
  pub nonempty : is_blank address ≡ false
  pub parts :
      (host : String) × (port : String) × (net.split_host_port address ≡ some (host, port))
      × (is_blank host ≡ false)
      × (is_blank port ≡ false)
      × (net.lookup_port port ≡ true)

pub record IsAccepted (net : NetOps) (c : Config) : Type 0 where
  pub server : IsListener net c.server
  pub health : IsListener net c.health
  pub upstream : IsUpstream net c.upstream.address
  pub upstream_timeout : is_positive c.upstream.timeout ≡ true
  pub shutdown_timeout : is_positive c.shutdown_timeout ≡ true
  pub apart :
      (str_eq c.server.listen_address c.health.listen_address && c.server.port == c.health.port)
      ≡ false
  pub level : supported_level c.logging.level ≡ true
  pub format : supported_format c.logging.format ≡ true

append-nil_parts : {A : Type 0} (xs ys : List A) → xs ++ ys ≡ [] → (xs ≡ []) × (ys ≡ [])
append-nil_parts [] ys h = (refl, h)
append-nil_parts (x ∷ xs) ys h = absurd (ground (arith, h))

check-nil : {E : Type 0} (bad : Bool) (e : E) → check bad e ≡ [] → bad ≡ false
check-nil true e h = absurd (ground (arith, h))
check-nil false e h = refl

joined-nil :
    (wrap : List ListenerError → ConfigError) (es : List ListenerError)
    → joined wrap es ≡ []
    → es ≡ []
joined-nil wrap [] h = refl
joined-nil wrap (e ∷ es) h = absurd (ground (arith, h))

optional-nil : (o : Option UpstreamError) → optional o ≡ [] → o ≡ none
optional-nil none h = refl
optional-nil (some e) h = absurd (ground (arith, h))

module _ (net : NetOps) where
  validate_listener-nil :
      (c : ListenerConfig) → c.port < 2 ^ 64 → (validate_listener net c ≡ []) ↔ IsListener net c
  unfolding validate_listener
  validate_listener-nil c b = (
    λ h. record { ip = ground arith; lowest = ground arith; highest = ground arith },
    λ v. ground (arith, v.ip, v.lowest, v.highest),
  )

  none-IsUpstream :
      (a : String) (o : Option (String × String))
      → net.split_host_port a ≡ o
      → validate_upstream net a ≡ none
      → IsUpstream net a
  unfolding validate_upstream
  none-IsUpstream a none e h = absurd (ground arith)
  none-IsUpstream a (some (host, port)) e h = record {
    nonempty = ground arith;
    parts = (host, port, e, ground arith, ground arith, ground arith);
  }

  validate_upstream-none : (a : String) → (validate_upstream net a ≡ none) ↔ IsUpstream net a
  unfolding validate_upstream
  validate_upstream-none a = (
    none-IsUpstream a (net.split_host_port a) refl,
    λ v. let (host, port, e, h, p, l) = v.parts in ground (arith, v.nonempty, e, h, p, l),
  )

  validate-IsAccepted :
      (c : Config)
      → c.server.port < 2 ^ 64
      → c.health.port < 2 ^ 64
      → validate net c ≡ []
      → IsAccepted net c
  unfolding validate
  validate-IsAccepted c p q h =
      let (h7, format) = append-nil_parts _ _ h in
      let (h6, level) = append-nil_parts _ _ h7 in
      let (h5, apart) = append-nil_parts _ _ h6 in
      let (h4, shutdown) = append-nil_parts _ _ h5 in
      let (h3, timeout) = append-nil_parts _ _ h4 in
      let (h2, upstream) = append-nil_parts _ _ h3 in
      let (server, health) = append-nil_parts _ _ h2 in
      record {
        server = (validate_listener-nil c.server p).0 (joined-nil server_listener _ server);
        health = (validate_listener-nil c.health q).0 (joined-nil health_listener _ health);
        upstream = (validate_upstream-none c.upstream.address).0 (optional-nil _ upstream);
        upstream_timeout = ground (arith, check-nil _ _ timeout);
        shutdown_timeout = ground (arith, check-nil _ _ shutdown);
        apart = check-nil _ _ apart;
        level = ground (arith, check-nil _ _ level);
        format = ground (arith, check-nil _ _ format);
      }

  IsAccepted-validate :
      (c : Config)
      → c.server.port < 2 ^ 64
      → c.health.port < 2 ^ 64
      → IsAccepted net c
      → validate net c ≡ []
  unfolding validate
  IsAccepted-validate c p q v =
      rw
        (
          (validate_listener-nil c.server p).1 v.server,
          (validate_listener-nil c.health q).1 v.health,
          (validate_upstream-none c.upstream.address).1 v.upstream,
          v.upstream_timeout,
          v.shutdown_timeout,
          v.apart,
          v.level,
          v.format,
        )
        refl

  -- `Validate` accepts a configuration exactly if both listeners have an IP address and a port from 1
  -- to 65535, the upstream address is host:port with a host and a known port, both timeouts are
  -- positive, the two listeners differ in address or port, and level and format of the log are
  -- supported. The ports are machine words.
  pub validate_iff :
      (c : Config)
      → c.server.port < 2 ^ 64
      → c.health.port < 2 ^ 64
      → (validate net c ≡ []) ↔ IsAccepted net c
  validate_iff c p q = (validate-IsAccepted c p q, IsAccepted-validate c p q)
