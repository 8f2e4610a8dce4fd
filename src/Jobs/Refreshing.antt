-- ===== src/Jobs/Refreshing.antt =====
-- `RefreshAll` of internal/jobs/manager.go: one worker for each host. Deliveries are taken one after
-- the other, in the order in which they come; what a worker writes after the deadline is not shown.
pub mod Order
use one_ssh.Base.{ℕ, zero, suc, ◌+◌, ◌*◌, ◌&&◌, List, [], ◌∷◌, if◌then◌else◌, map, ◌==◌}
use one_ssh.Store.Jobs.{Job, is_running}
use one_ssh.Jobs.{World, Status, Hosts, snapshot, stale_status, refresh_host}

-- How it went with a host before the deadline: its last worker still hangs, or its worker delivered.
-- A host of which nothing is said was not heard of.
pub data Turn : Type 0 where
  stuck delivered : Turn

-- The first loop of `RefreshAll`.
unfoldable pub prefill : ℕ → List Job → World → List Status × World
unfolding snapshot stale_status
prefill now [] w = ([], w)
prefill now (j ∷ js) w =
    let (first, next) =
      if is_running j.status then (stale_status j "timeout", w) else snapshot (now * 1000) j w in
    let (rest, last) = prefill now js next in (first ∷ rest, last)

-- The running jobs of a host with their places in the list, the first of which is `n`.
unfoldable pub of_host : ℕ → ℕ → List Job → List (ℕ × Job)
of_host host n [] = []
of_host host n (j ∷ js) =
    let rest = of_host host (n + 1) js in
    if is_running j.status && j.host_id == host then (n, j) ∷ rest else rest

unfoldable pub set_at : ℕ → Status → List Status → List Status
set_at i s [] = []
set_at zero s (x ∷ xs) = s ∷ xs
set_at (suc i) s (x ∷ xs) = x ∷ set_at i s xs

-- `out[i] = r.statuses[k]` for each place of a host.
unfoldable pub fill : List (ℕ × Job) → List Status → List Status → List Status
unfolding set_at
fill [] statuses out = out
fill (p ∷ ps) [] out = out
fill (p ∷ ps) (s ∷ statuses) out = fill ps statuses (set_at p.0 s out)

unfoldable pub take_turn :
    Hosts → ℕ → List Job → ℕ × Turn → List Status × World → List Status × World
unfolding fill of_host refresh_host stale_status
take_turn hosts now list (host, stuck) (out, w) =
    let places = of_host host 0 list in
    (fill places (map (λ p. stale_status p.1 "stuck") places) out, w)
take_turn hosts now list (host, delivered) (out, w) =
    let places = of_host host 0 list in
    let (statuses, next) = refresh_host hosts now host (map (λ p. p.1) places) w in
    (fill places statuses out, next)

unfoldable pub take_turns :
    Hosts → ℕ → List Job → List (ℕ × Turn) → List Status × World → List Status × World
unfolding take_turn
take_turns hosts now list [] r = r
take_turns hosts now list (turn ∷ turns) r =
    take_turns hosts now list turns (take_turn hosts now list turn r)

-- `RefreshAll`.
unfoldable pub refresh_all : Hosts → ℕ → List (ℕ × Turn) → List Job → World → List Status × World
unfolding prefill take_turns
refresh_all hosts now turns list w = take_turns hosts now list turns (prefill now list w)
