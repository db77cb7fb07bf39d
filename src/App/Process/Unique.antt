-- ===== src/App/Process/Unique.antt =====
-- dns/internal/app/benchmark_process_linux.go: when exactly one server is found.
use Prim.Native.String.{String}
use homedns_analytics.Common.{
  none, ℕ, ◌≤◌, ◌≡◌, refl, sym, ap, ◌∙◌, true, false, Option, some, List, [], ◌∷◌, Option-cases,
  ◌⊎◌, inl, inr, arith, All, sum_by, length, is_some, ok, err, is_blank, if◌then◌else◌, ◌==◌,
  is_positive,
}
use homedns_analytics.App.Process.{
  ProcEntry, not_found, multiple, matches, matching_pid, other_pid, resolve_benchmark_target_pid,
  the_only,
}

-- An entry counts once if it shows a server with the configuration, in another process.
abbrev pub server_weight : Option String → ℕ → String → ProcEntry → ℕ
server_weight cwd own config e = if is_some (matching_pid cwd own config e) then 1 else 0

-- An entry shows no server, or the process `pid`.
abbrev pub Shows : Option String → ℕ → String → ℕ → ProcEntry → Type 0
Shows cwd own config pid e =
    matching_pid cwd own config e
    ≡ (if is_some (matching_pid cwd own config e) then some pid else none)

module _ (cwd : Option String) (own : ℕ) (config : String) where
  -- The list holds, in the order of the entries, the number of each entry that shows a server, and
  -- nothing else; each is positive and not that of the benchmark.
  pub data IsListed : List ProcEntry → List ℕ → Type 0 where
    at_end : IsListed [] []
    passes :
        {e : ProcEntry} {es : List ProcEntry} {pids : List ℕ}
        → matching_pid cwd own config e ≡ none
        → IsListed es pids
        → IsListed (e ∷ es) pids
    lists :
        {e : ProcEntry} {es : List ProcEntry} {pid : ℕ} {pids : List ℕ}
        → matching_pid cwd own config e ≡ some pid
        → is_positive pid ≡ true
        → (pid == own) ≡ false
        → IsListed es pids
        → IsListed (e ∷ es) (pid ∷ pids)

  matching_pid-IsOther :
      (e : ProcEntry) (pid : ℕ)
      → matching_pid cwd own config e ≡ some pid
      → (is_positive pid ≡ true) × ((pid == own) ≡ false)
  unfolding matching_pid other_pid
  matching_pid-IsOther e pid h = (ground arith, ground arith)

  matches-IsListed : (es : List ProcEntry) → IsListed es (matches cwd own config es)
  unfolding matches
  matches-IsListed [] = at_end
  matches-IsListed (e ∷ es) = elim (Option-cases (matching_pid cwd own config e)) [
    | inl n ↦ rw (n, matches) (passes n (matches-IsListed es))
    | inr (pid, s) ↦
        let (positive, other) = matching_pid-IsOther e pid s in
        rw (s, matches) (lists s positive other (matches-IsListed es))
  ]

  length-matches :
      (es : List ProcEntry)
      → length (matches cwd own config es) ≡ sum_by (server_weight cwd own config) es
  unfolding matches
  length-matches [] = refl
  length-matches (e ∷ es) = let ih = length-matches es in ground arith

  no_match-Shows :
      (pid : ℕ) (es : List ProcEntry)
      → matches cwd own config es ≡ []
      → All (Shows cwd own config pid) es
  unfolding matches
  no_match-Shows pid [] h = tt
  no_match-Shows pid (e ∷ es) h = (ground arith, no_match-Shows pid es (ground arith))

  one_match-Shows :
      (pid : ℕ) (es : List ProcEntry)
      → matches cwd own config es ≡ pid ∷ []
      → All (Shows cwd own config pid) es
  unfolding matches
  one_match-Shows pid [] h = absurd (ground arith)
  one_match-Shows pid (e ∷ es) h = elim (Option-cases (matching_pid cwd own config e)) [
    | inl n ↦ (ground arith, one_match-Shows pid es (ground arith))
    | inr (p, s) ↦ (ground arith, no_match-Shows pid es (ground arith))
  ]

  one_match-IsOther :
      (pid : ℕ) (es : List ProcEntry)
      → matches cwd own config es ≡ pid ∷ []
      → (is_positive pid ≡ true) × ((pid == own) ≡ false)
  unfolding matches matching_pid other_pid
  one_match-IsOther pid [] h = absurd (ground arith)
  one_match-IsOther pid (e ∷ es) h = elim (Option-cases (matching_pid cwd own config e)) [
    | inl n ↦ one_match-IsOther pid es (ground arith)
    | inr (p, s) ↦ (ground arith, ground arith)
  ]

  the_only-cases :
      (pids : List ℕ)
      → ((length pids ≡ 0) × (the_only pids ≡ err not_found))
        ⊎ (((pid : ℕ) × (pids ≡ pid ∷ []) × (the_only pids ≡ ok pid))
            ⊎ ((2 ≤ length pids) × (the_only pids ≡ err (multiple pids))))
  the_only-cases [] = inl (refl, refl)
  the_only-cases (p ∷ []) = inr (inl (p, refl, refl))
  the_only-cases (p ∷ q ∷ ps) = inr (inr (omega arith, refl))

  -- With a configuration path and a /proc that can be listed there are three cases: no entry shows
  -- another process that is a server with that configuration, which is an error; exactly one does,
  -- and the result is its number, positive and not that of the benchmark, and every entry that shows
  -- such a server shows this one; or several do, and the result is the error that lists the number of
  -- each of them, in the order of the entries, positive and not that of the benchmark.
  pub resolve_pid_cases :
      (es : List ProcEntry)
      → is_blank config ≡ false
      → let found = sum_by (server_weight cwd own config) es in
        let result = resolve_benchmark_target_pid cwd own config (some es) in
        ((found ≡ 0) × (result ≡ err not_found))
        ⊎ (((found ≡ 1)
              × (pid : ℕ) × (result ≡ ok pid)
              × All (Shows cwd own config pid) es
              × (is_positive pid ≡ true)
              × ((pid == own) ≡ false))
            ⊎ ((2 ≤ found)
                × (pids : List ℕ) × (result ≡ err (multiple pids))
                × (length pids ≡ found)
                × IsListed es pids))
  unfolding resolve_benchmark_target_pid
  resolve_pid_cases es h =
      let n = length-matches es in
      elim (the_only-cases (matches cwd own config es)) [
        | inl (k, r) ↦ inl (sym n ∙ k, rw h r)
        | inr (inl (pid, e, r)) ↦
            let (positive, other) = one_match-IsOther pid es e in
            inr (inl (sym n ∙ ap length e, pid, rw h r, one_match-Shows pid es e, positive, other))
        | inr (inr (k, r)) ↦
            let several : 2 ≤ sum_by (server_weight cwd own config) es = omega (arith, k, n) in
            inr (inr (several, matches cwd own config es, rw h r, n, matches-IsListed es))
      ]
