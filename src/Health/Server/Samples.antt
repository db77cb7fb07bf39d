-- ===== src/Health/Server/Samples.antt =====
-- The health server at concrete environments.
use text.Mathlib.Text.{◌==◌ as str_eq}
use homedns_analytics.Common.{ℕ, ◌≡◌, refl, true, false, none, some}
use homedns_analytics.Net.{NetOps}
use homedns_analytics.Health.Server.{new_server, start, shutdown_begin, shutdown_end}
use homedns_analytics.Health.Server.Interleaving.{
  System, Reach, here, later, starts, launches, begins, ends, update, IsLaunched, ready-served,
}

-- The first server has been started, stopped before its `go s.serve`, and a second one started.
abbrev first : System
first = record {
  server = (start none 0 new_server).0;
  stopping = λ n. false;
  launching = update (λ n. false) 0 true;
  serving = λ n. false;
  next = 1;
}

abbrev stopped_early : System
stopped_early = record first { server = new_server; stopping = update (λ n. false) 0 true }

abbrev second : System
second = record stopped_early {
  server = (start none 1 new_server).0;
  launching = update (update (λ n. false) 0 true) 1 true;
  next = 2;
}

abbrev bound : System
bound = record second {
  launching = update (update (update (λ n. false) 0 true) 1 true) 1 false;
  serving = update (λ n. false) 1 true;
}

bound-Reach : Reach bound
unfolding start shutdown_begin shutdown_end
bound-Reach =
    let early : Reach stopped_early =
      later (later (later here (starts none)) begins) (ends 0 refl) in
    later (later early (starts none)) (launches 1 refl)

ready-served_example :
    (n : ℕ) × (bound.server.http_server ≡ some n)
    × (bound.server.listener ≡ some n)
    × IsLaunched bound n
    × (bound.stopping n ≡ false)
unfolding start
ready-served_example = ready-served bound-Reach refl

abbrev local_net : NetOps
local_net = record {
  split_host_port = λ a. some ("127.0.0.1", "8081");
  join_host_port = λ h p. h;
  parse_ip = λ h. some (str_eq h "127.0.0.1");
  lookup_port = λ p. true;
  trim_space = λ h. h;
  is_localhost = λ h. str_eq h "localhost";
}

abbrev configured_port : ℕ → ℕ
configured_port n = 8081
