-- ===== src/Config/Samples.antt =====
-- The configuration at concrete values.
use text.Mathlib.Text.{◌==◌ as str_eq}
use homedns_analytics.Common.{◌≡◌, ◌↔◌, refl, true, some, [], ◌∷◌, arith, is_blank}
use homedns_analytics.Net.{NetOps}
use homedns_analytics.Config.{
  Config, default, validate, validate_listener, validate_upstream, supported_level,
  supported_format, upstream, empty_address,
}
use homedns_analytics.Config.Accepted.{IsAccepted, validate_iff}

abbrev local_net : NetOps
local_net = record {
  split_host_port = λ a. some ("192.168.1.1", "53");
  join_host_port = λ h p. h;
  parse_ip = λ h. some (str_eq h "127.0.0.1");
  lookup_port = λ p. true;
  trim_space = λ h. h;
  is_localhost = λ h. str_eq h "localhost";
}

-- The defaults lack just the upstream address.
default_lacks_upstream : validate local_net default ≡ upstream empty_address ∷ []
unfolding validate validate_listener validate_upstream default supported_level supported_format
    is_blank
default_lacks_upstream = refl

abbrev configured : Config
unfolding default
configured = record default { upstream = record default.upstream { address = "192.168.1.1:53" } }

validate_iff_example : (validate local_net configured ≡ []) ↔ IsAccepted local_net configured
unfolding default
validate_iff_example = validate_iff local_net configured (omega arith) (omega arith)
