-- ===== src/Net.antt =====
-- What the program uses of Go's package `net`: a parameter of the definitions that call it.
use Prim.Native.String.{String}
use homedns_analytics.Common.{ℕ, ◌≡◌, Bool, true, false, Option, some, is_some, is_blank}

-- `none` stands for a nil IP, an error of the call otherwise.
pub record NetOps : Type 0 where
  -- `net.SplitHostPort(address)`: host and port.
  pub split_host_port : String → Option (String × String)
  -- `net.JoinHostPort(host, strconv.Itoa(port))`
  pub join_host_port : String → ℕ → String
  -- `net.ParseIP(s) != nil`, and `net.ParseIP(s).IsLoopback()` where it is not nil.
  pub parse_ip : String → Option Bool
  -- `net.LookupPort("udp", port)` succeeds.
  pub lookup_port : String → Bool
  -- `strings.TrimSpace` and `strings.EqualFold(s, "localhost")`.
  pub trim_space : String → String
  pub is_localhost : String → Bool

-- What is used of the package: the text of an IP address is not blank, and what `JoinHostPort` makes
-- of it splits again into it and a port, neither the text nor the port blank.
pub record NetLaws (net : NetOps) : Type 0 where
  pub ip_nonblank : (h : String) → is_some (net.parse_ip h) ≡ true → is_blank h ≡ false
  pub split_joined :
      (h : String) (p : ℕ)
      → is_some (net.parse_ip h) ≡ true
      → (t : String) × (net.split_host_port (net.join_host_port h p) ≡ some (h, t))
        × (is_blank t ≡ false)
  pub joined_nonblank :
      (h : String) (p : ℕ)
      → is_some (net.parse_ip h) ≡ true
      → is_blank (net.join_host_port h p) ≡ false
