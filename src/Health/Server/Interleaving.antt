-- ===== src/Health/Server/Interleaving.antt =====
-- dns/internal/health/server.go under concurrent callers: any number of `Start` and `Shutdown`
-- calls, and the goroutines `serve`, in any order.
use homedns_analytics.Common.{
  ℕ, ◌+◌, ◌<◌, ◌≡◌, ◌≢◌, ◌↔◌, refl, Bool, true, false, Option, none, some, arith, GoError,
  if◌then◌else◌, is_some, ◌==◌, ◌||◌, ◌⊎◌,
}
use homedns_analytics.Health.Server.{
  Server, new_server, start, shutdown_begin, shutdown_end, serve_end, address,
}

-- `stopping n`: some `Shutdown` has seen `n` in its first section. `launching n`: the `Start` that made
-- `n` has left its section and not yet come to `go s.serve`. `serving n`: the goroutine `serve` of `n`
-- is started and has not yet run its section. `next` names what the next `Start` makes.
pub record System : Type 0 where
  pub server : Server
  pub stopping : ℕ → Bool
  pub launching : ℕ → Bool
  pub serving : ℕ → Bool
  pub next : ℕ

abbrev pub update : (ℕ → Bool) → ℕ → Bool → ℕ → Bool
update f n b m = if n == m then b else f m

abbrev pub mark : Option ℕ → (ℕ → Bool) → ℕ → Bool
mark none f = f
mark (some n) f = update f n true

-- Between the section of a `Start` and its `go s.serve` any other step may come. The second sections of the calls of `Shutdown` that have seen `n` run at any later time, and as
-- often as there are such calls; `serve` ends at any time.
pub data Step (t : System) : System → Type 0 where
  starts :
      (listen : Option GoError)
      → Step t (record t {
        server = (start listen t.next t.server).0;
        launching =
            if is_some (start listen t.next t.server).1
            then t.launching
            else update t.launching t.next true;
        next = t.next + 1;
      })
  launches :
      (n : ℕ)
      → t.launching n ≡ true
      → Step t
          (record t { launching = update t.launching n false; serving = update t.serving n true })
  begins : Step t (record t {
    server = (shutdown_begin t.server).0;
    stopping = mark (shutdown_begin t.server).1 t.stopping;
  })
  ends : (n : ℕ) → t.stopping n ≡ true → Step t (record t { server = shutdown_end n t.server })
  serve_ends :
      (n : ℕ)
      → t.serving n ≡ true
      → Step t (record t { server = serve_end n t.server; serving = update t.serving n false })

abbrev pub initial : System
initial = record {
  server = new_server;
  stopping = λ n. false;
  launching = λ n. false;
  serving = λ n. false;
  next = 0;
}

pub data Reach : System → Type 0 where
  here : Reach initial
  later : {t u : System} → Reach t → Step t u → Reach u

-- The goroutine `serve` of `n` runs, or the `Start` that made `n` is still to start it.
abbrev pub IsLaunched : System → ℕ → Type 0
IsLaunched t n = (t.serving n ≡ true) ⊎ (t.launching n ≡ true)

-- The current server was made, and is launched or about to be; it is not ready if it is being stopped.
abbrev IsServed : System → Option ℕ → Type 0
IsServed t none = Unit
IsServed t (some n) =
    ((t.serving n || t.launching n) ≡ true)
    × (n < t.next)
    × (t.stopping n ≡ true → t.server.ready ≡ false)

record Inv (t : System) : Type 0 where
  paired : t.server.http_server ≡ t.server.listener
  ready : t.server.ready ≡ true → is_some t.server.http_server ≡ true
  served : IsServed t t.server.http_server
  made : (n : ℕ) → t.stopping n ≡ true → n < t.next

initial-Inv : Inv initial
initial-Inv = ground arith

Step-Inv : {t u : System} → Step t u → Inv t → Inv u
unfolding start shutdown_begin shutdown_end serve_end
Step-Inv {t} (starts listen) v = record {
  paired = ground (arith, v.paired);
  ready = ground arith;
  served = ground (arith, v.made t.next);
  made = λ n h. ground (arith, v.made n);
}
Step-Inv (launches m h) v = record {
  paired = v.paired;
  ready = v.ready;
  served = ground (arith, v.served);
  made = v.made;
}
Step-Inv begins v = record {
  paired = ground arith;
  ready = ground arith;
  served = ground arith;
  made = λ n h. ground (arith, v.made n);
}
Step-Inv (ends m h) v = record {
  paired = ground arith;
  ready = ground arith;
  served = ground arith;
  made = v.made;
}
Step-Inv (serve_ends m h) v = record {
  paired = ground arith;
  ready = ground arith;
  served = ground arith;
  made = v.made;
}

Reach-Inv : {t : System} → Reach t → Inv t
Reach-Inv here = initial-Inv
Reach-Inv (later r st) = Step-Inv st (Reach-Inv r)

-- A health server that reports itself ready has a current HTTP server, with its listener; the
-- goroutine `serve` of that server runs, or the call of `Start` that made the server has yet to start
-- it; and no `Shutdown` is stopping the server. This holds for any number of concurrent callers.
pub ready-served :
    {t : System}
    → Reach t
    → t.server.ready ≡ true
    → (n : ℕ) × (t.server.http_server ≡ some n)
      × (t.server.listener ≡ some n)
      × IsLaunched t n
      × (t.stopping n ≡ false)
ready-served {t} r h = current (Reach-Inv r) t.server.http_server refl
  where
    current :
        Inv t
        → (o : Option ℕ) → t.server.http_server ≡ o
        → (n : ℕ) × (t.server.http_server ≡ some n)
          × (t.server.listener ≡ some n)
          × IsLaunched t n
          × (t.stopping n ≡ false)
    current v none e = absurd (ground (arith, v.ready h))
    current v (some n) e =
        (n, e, ground (arith, v.paired), ground (arith, v.served), ground (arith, v.served))

-- In every reachable state `Start` succeeds exactly if no server is current and the address can be
-- bound; the server is then ready on the new listener. A `Start` that fails changes nothing.
pub start_outcome :
    {t : System} (listen : Option GoError)
    → Reach t
    → let (s, e) = start listen t.next t.server in
      ((e ≡ none) ↔ ((t.server.http_server ≡ none) × (listen ≡ none)))
      × (e ≡ none → (s.ready ≡ true) × (s.listener ≡ some t.next))
      × (e ≢ none → s ≡ t.server)
unfolding start
start_outcome {t} listen r =
    let v = Reach-Inv r in
    (
      (λ h. ground (arith, v.paired, v.ready), λ h. ground (arith, v.paired, v.ready)),
      λ h. ground arith,
      λ h. ground arith,
    )

-- `Shutdown` that nobody interrupts leaves no server current, the listener gone and the health
-- server not ready, whatever the state before; `Address` is then the configured one again.
pub shutdown_stops :
    (s : Server) (bound : ℕ → ℕ) (configured : ℕ)
    → let after : Server = elim (shutdown_begin s).1 as (λ _. Server) [
      | none ↦ (shutdown_begin s).0
      | some n ↦ shutdown_end n (shutdown_begin s).0
    ] in
      (after.http_server ≡ none)
      × (after.ready ≡ false)
      × (address bound configured after ≡ configured)
unfolding shutdown_begin shutdown_end address
shutdown_stops s bound configured = ground arith
