-- ===== src/Cmd/Server.antt =====
-- dns/cmd/homedns-dns/main.go: the command that runs the DNS service.
use Prim.Native.String.{String}
use text.Mathlib.Text.{◌==◌ as str_eq}
use homedns_analytics.Common.{
  Bool, false, Option, none, some, List, [], ◌∷◌, GoError, Result, ok, err, if◌then◌else◌,
}
use homedns_analytics.Net.{NetOps}
use homedns_analytics.Config.{Config}
use homedns_analytics.Config.Load.{Documents, LoadError, load}
use homedns_analytics.Health.Server.Address.{AddressError}
use homedns_analytics.App.Create.{Parts, new_application}
use homedns_analytics.Cmd.Flags.{FlagSet, FlagKind, FlagError, switch, valued, parse, parse_bool}
use homedns_analytics.Cmd.Output.{
  Outcome, Complaint, version_text, server_flags, unexpected_arguments, missing_config, load_failed,
  create_failed, run_failed, exit_success, exit_failure, exit_invalid_args,
}

pub record ServerFlags : Type 0 where
  pub config : String
  pub version : Bool

abbrev with_switch : Option Bool → ServerFlags → Option ServerFlags
with_switch none s = none
with_switch (some b) s = some (record s { version = b })

unfoldable pub server_formal : String → Option FlagKind
server_formal name =
    if str_eq name "config"
    then some valued
    else if str_eq name "version"
    then some switch
    else none

unfoldable pub set_server_flag : String → String → ServerFlags → Option ServerFlags
set_server_flag name value s =
    if str_eq name "config"
    then some (record s { config = value })
    else if str_eq name "version"
    then with_switch (parse_bool value) s
    else none

abbrev pub server_flag_set : FlagSet ServerFlags
server_flag_set = record { formal = server_formal; set = set_server_flag }

-- The environment: the files, and `Run` of the application until a signal ends it.
pub record ServerEnv (E : Type 0) : Type 0 where
  pub open_file : String → Result GoError Documents
  pub serve : Parts → Option E

-- The errors that end `runServer`, and a version that was asked for.
pub data Ending (E : Type 0) : Type 0 where
  served shown : Ending E
  refused failed : Complaint E → Ending E

module _ {E : Type 0} (net : NetOps) (env : ServerEnv E) where
  abbrev pub after_serve : Option E → Ending E
  after_serve none = served
  after_serve (some e) = failed (run_failed e)

  abbrev pub after_create : Result AddressError Parts → Ending E
  after_create (err e) = failed (create_failed e)
  after_create (ok parts) = after_serve (env.serve parts)

  abbrev pub after_load : Result LoadError Config → Ending E
  after_load (err e) = failed (load_failed e)
  after_load (ok cfg) = after_create (new_application net cfg)

  abbrev pub with_arguments : String → List String → Ending E
  with_arguments config (a ∷ args) = refused (unexpected_arguments (a ∷ args))
  with_arguments config [] =
      if str_eq config ""
      then refused missing_config
      else after_load (load net env.open_file config)

  abbrev pub after_parse : Result FlagError (ServerFlags × List String) → Ending E
  after_parse (err e) = refused (server_flags e)
  after_parse (ok (s, args)) = if s.version then shown else with_arguments s.config args

  unfoldable pub server_ending : List String → Ending E
  server_ending args =
      after_parse (parse server_flag_set args (record { config = ""; version = false }))

abbrev pub outcome_of : {F P E : Type 0} → Ending E → Outcome F P E
outcome_of served = record { code = exit_success; stdout = []; stderr = [] }
outcome_of shown = record { code = exit_success; stdout = version_text ∷ []; stderr = [] }
outcome_of (refused c) = record { code = exit_invalid_args; stdout = []; stderr = c ∷ [] }
outcome_of (failed c) = record { code = exit_failure; stdout = []; stderr = c ∷ [] }

-- `runServer`
unfoldable pub run_server : {F P E : Type 0} → NetOps → ServerEnv E → List String → Outcome F P E
run_server net env args = outcome_of (server_ending net env args)
