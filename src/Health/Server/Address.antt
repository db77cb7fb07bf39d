-- ===== src/Health/Server/Address.antt =====
-- dns/internal/health/server.go: the addresses that `NewServer` accepts.
use Prim.Native.String.{String}
use homedns_analytics.Common.{
  ◌≡◌, ◌↔◌, ◌⊎◌, inl, inr, Bool, true, false, Option, none, some, arith, if◌then◌else◌, is_blank,
  Option-cases,
}
use homedns_analytics.Net.{NetOps}
use homedns_analytics.Health.Server.{Server, new_server}

pub data AddressError : Type 0 where
  address_required handler_required : AddressError
  invalid_address not_an_ip public_address : AddressError

module _ (net : NetOps) where
  open net use {split_host_port, parse_ip, trim_space, is_localhost}

  -- `validateLoopbackAddress` from the trimmed host on.
  unfoldable pub validate_host : String → Option AddressError
  validate_host host = if is_localhost host then none else elim (parse_ip host) [
    | none ↦ some not_an_ip
    | some loopback ↦ if loopback then none else some public_address
  ]

  unfoldable pub validate_loopback_address : String → Option AddressError
  unfolding validate_host
  validate_loopback_address address = elim (split_host_port address) [
    | none ↦ some invalid_address
    | some (host, port) ↦ validate_host (trim_space host)
  ]

  -- `NewServer`; `has_handler` is `handler != nil`.
  unfoldable pub make_server : String → Bool → Option AddressError × Option Server
  unfolding validate_loopback_address
  make_server address has_handler =
      if is_blank address
      then (some address_required, none)
      else if has_handler
      then elim (validate_loopback_address address) [
        | some e ↦ (some e, none)
        | none ↦ (none, some new_server)
      ]
      else (some handler_required, none)

  -- The host of an address that can be split, without the space around it.
  abbrev pub IsLoopback : String → Type 0
  IsLoopback address =
      (host : String) × (port : String) × (split_host_port address ≡ some (host, port))
      × ((is_localhost (trim_space host) ≡ true) ⊎ (parse_ip (trim_space host) ≡ some true))

  validate_loopback_address-IsLoopback :
      (address : String) → validate_loopback_address address ≡ none → IsLoopback address
  unfolding validate_loopback_address
  validate_loopback_address-IsLoopback address h = elim (Option-cases (split_host_port address)) [
    | inl e ↦ absurd (ground arith)
    | inr ((host, port), e) ↦ (host, port, e, ground arith)
  ]

  -- `NewServer` makes a health server exactly if the address is not blank, there is a handler, and
  -- the host of the address is localhost or a loopback IP: a public address is never bound.
  pub make_server_iff :
      (address : String) (has_handler : Bool)
      → ((make_server address has_handler).1 ≡ some new_server)
        ↔ ((is_blank address ≡ false) × (has_handler ≡ true) × IsLoopback address)
  unfolding make_server
  make_server_iff address has_handler = (
    λ h. (ground arith, ground arith, validate_loopback_address-IsLoopback address (ground arith)),
    λ h. ground arith,
  )
