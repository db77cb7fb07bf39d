-- ===== src/App/Local.antt =====
-- A host for the tests: a network with its laws, and a configuration that is accepted there.
use Prim.Native.String.{String}
use text.Mathlib.Text.{◌==◌ as str_eq}
use text.Mathlib.TextEquality.{eq_iff}
use homedns_analytics.Common.{
  ◌≡◌, refl, sym, ap, true, none, some, arith, is_blank, all_space, is_space, if◌then◌else◌,
  Bool-cases, inl, inr, is_some,
}
use homedns_analytics.Float.{natural_ops}
use homedns_analytics.Net.{NetOps, NetLaws}
use homedns_analytics.Config.{
  Config, default, validate, validate_listener, validate_upstream, supported_level,
  supported_format,
}
use homedns_analytics.Config.Accepted.{IsAccepted, validate_iff}
use homedns_analytics.App.Benchmark.Valid.{IntLaws}
use homedns_analytics.App.Create.{HostLaws}

abbrev pub local_net : NetOps
local_net = record {
  split_host_port = λ a.
      if str_eq a "192.168.1.1:53" then some ("192.168.1.1", "53") else some ("127.0.0.1", "5353");
  join_host_port = λ h p. "127.0.0.1:5353";
  parse_ip = λ h. if str_eq h "127.0.0.1" then some true else none;
  lookup_port = λ p. true;
  trim_space = λ h. h;
  is_localhost = λ h. str_eq h "localhost";
}

only_local : (h : String) → is_some (local_net.parse_ip h) ≡ true → h ≡ "127.0.0.1"
only_local h e = elim (Bool-cases (str_eq h "127.0.0.1")) [
  | inl same ↦ (eq_iff h "127.0.0.1").0 same
  | inr other ↦ absurd (ground (arith, e, other))
]

pub local_laws : NetLaws local_net
unfolding is_blank all_space is_space
local_laws = record {
  ip_nonblank = λ h e. ap is_blank (only_local h e);
  split_joined = λ h p e. ("5353", ap (λ t. some (t, "5353")) (sym (only_local h e)), refl);
  joined_nonblank = λ h p e. refl;
}

pub natural_ints : IntLaws natural_ops
natural_ints = record { le_of_int = λ a b ha hb. refl }

abbrev pub configured : Config
unfolding default
configured = record default { upstream = record default.upstream { address = "192.168.1.1:53" } }

pub configured-IsAccepted : IsAccepted local_net configured
unfolding default validate validate_listener validate_upstream supported_level supported_format
    is_blank all_space is_space
configured-IsAccepted = (validate_iff local_net configured (omega arith) (omega arith)).0 refl

pub local_hosts : HostLaws local_net
local_hosts = record {
  trim_ip = λ h e. refl;
  ip-not-localhost = λ h e. ap (λ t. str_eq t "localhost") (only_local h e);
}
