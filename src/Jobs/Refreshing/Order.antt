-- ===== src/Jobs/Refreshing/Order.antt =====
-- Which job each status of `RefreshAll` is about (internal/jobs/manager.go).
use one_ssh.Base.{
  ℕ, zero, suc, ◌+◌, ◌*◌, String, Bool, true, false, ◌&&◌, List, [], ◌∷◌, Option, none, some,
  if◌then◌else◌, map, ◌==◌, ◌≡◌, refl, sym, ap, subst, ◌∙◌, arith, Bool-cases, inl, inr, str_eq,
  Option-cases, Sum-cases, ℤ,
}
use one_ssh.Store.Jobs.{Job, is_running}
use one_ssh.Jobs.{
  World, Report, Status, Hosts, view, snapshot, stale_status, probe, probe_all, probe_report,
  apply_report, record_end, refresh_host, shown,
}
use one_ssh.Jobs.Refreshing.{
  Turn, stuck, delivered, prefill, of_host, set_at, fill, take_turn, take_turns, refresh_all,
}

-- The jobs that a list of statuses shows, and the jobs of a list.
abbrev pub shown_ids : List Status → List String
shown_ids = map (λ s. s.job.id)

abbrev pub job_ids : List Job → List String
job_ids = map (λ j. j.id)

prefill-ids : (now : ℕ) (js : List Job) (w : World) → shown_ids (prefill now js w).0 ≡ job_ids js
unfolding prefill snapshot stale_status view
prefill-ids now [] w = refl
prefill-ids now (j ∷ js) w = elim (Bool-cases (is_running j.status)) [
  | inl e ↦ rw (prefill, e) (ap (λ xs. j.id ∷ xs) (prefill-ids now js w))
  | inr e ↦
      rw (prefill, e) (ap (λ xs. j.id ∷ xs) (prefill-ids now js (snapshot (now * 1000) j w).1))
]

-- The id at a place.
abbrev id_at : ℕ → List String → Option String
id_at i [] = none
id_at zero (x ∷ xs) = some x
id_at (suc i) (x ∷ xs) = id_at i xs

set_at-ids :
    (i : ℕ) (s : Status) (out : List Status)
    → id_at i (shown_ids out) ≡ some s.job.id
    → shown_ids (set_at i s out) ≡ shown_ids out
unfolding set_at
set_at-ids i s [] h = refl
set_at-ids zero s (x ∷ xs) h =
    let e : x.job.id ≡ s.job.id = cc in ap (λ id. id ∷ shown_ids xs) (sym e)
set_at-ids (suc i) s (x ∷ xs) h = ap (λ ids. x.job.id ∷ ids) (set_at-ids i s xs h)

-- Places and statuses of the same jobs, all at their places in the ids.
data Fits (ids : List String) : List (ℕ × Job) → List Status → Type 0 where
  no_places : (statuses : List Status) → Fits ids [] statuses
  place_and :
      (i : ℕ) (j : Job) (s : Status) (ps : List (ℕ × Job)) (statuses : List Status)
      → id_at i ids ≡ some s.job.id
      → Fits ids ps statuses
      → Fits ids ((i, j) ∷ ps) (s ∷ statuses)

fill-ids :
    (ids : List String) (ps : List (ℕ × Job)) (statuses out : List Status)
    → Fits ids ps statuses
    → shown_ids out ≡ ids
    → shown_ids (fill ps statuses out) ≡ ids
unfolding fill
fill-ids ids _ _ out (no_places statuses) h = h
fill-ids ids _ _ out (place_and i j s ps statuses at rest) h =
    fill-ids ids ps statuses (set_at i s out) rest
      (set_at-ids i s out (subst (λ ids. id_at i ids ≡ some s.job.id) (sym h) at) ∙ h)

-- Running jobs of a list, with their places in it.
data Placed (ids : List String) : List (ℕ × Job) → Type 0 where
  no_more : Placed ids []
  placed_and :
      (i : ℕ) (j : Job) (ps : List (ℕ × Job))
      → id_at i ids ≡ some j.id
      → Placed ids ps
      → Placed ids ((i, j) ∷ ps)

if-Placed :
    (ids : List String) (b : Bool) (xs ys : List (ℕ × Job))
    → Placed ids xs
    → Placed ids ys
    → Placed ids (if b then xs else ys)
if-Placed ids true xs ys p q = p
if-Placed ids false xs ys p q = q

of_host-Placed :
    (host n : ℕ) (js : List Job) (ids : List String)
    → ((k : ℕ) (id : String) → id_at k (job_ids js) ≡ some id → id_at (n + k) ids ≡ some id)
    → Placed ids (of_host host n js)
unfolding of_host
of_host-Placed host n [] ids h = no_more
of_host-Placed host n (j ∷ js) ids h =
    let here : id_at n ids ≡ some j.id =
      let e : n + 0 ≡ n = omega arith in subst (λ m. id_at m ids ≡ some j.id) e (h 0 j.id refl) in
    let rest = of_host-Placed host (n + 1) js ids (λ k id e.
      let same : n + suc k ≡ (n + 1) + k = omega arith in
      subst (λ m. id_at m ids ≡ some id) same (h (suc k) id e)) in
    if-Placed ids (is_running j.status && j.host_id == host) _ _
      (placed_and n j (of_host host (n + 1) js) here rest) rest

host-Placed : (host : ℕ) (list : List Job) → Placed (job_ids list) (of_host host 0 list)
host-Placed host list = of_host-Placed host 0 list (job_ids list) (λ k id e.
    let same : k ≡ 0 + k = omega arith in subst (λ m. id_at m (job_ids list) ≡ some id) same e)

Placed-Fits :
    (ids : List String) (ps : List (ℕ × Job)) (statuses : List Status)
    → Placed ids ps
    → shown_ids statuses ≡ job_ids (map (λ p. p.1) ps)
    → Fits ids ps statuses
Placed-Fits ids _ statuses no_more e = no_places statuses
Placed-Fits ids _ [] (placed_and i j ps at rest) e = cc
Placed-Fits ids _ (s ∷ statuses) (placed_and i j ps at rest) e =
    let same : s.job.id ≡ j.id = cc in
    let more : shown_ids statuses ≡ job_ids (map (λ p. p.1) ps) = cc in
    place_and i j s ps statuses (subst (λ id. id_at i ids ≡ some id) (sym same) at)
      (Placed-Fits ids ps statuses rest more)

record_end-id :
    (now : ℕ) (status : String) (code : Option ℤ) (j : Job) (w : World)
    → (record_end now status code j w).0.job.id ≡ j.id
unfolding record_end view
record_end-id now status code j w = elim (Bool-cases (str_eq status j.status)) [
  | inl e ↦ ground arith
  | inr e ↦ ground arith
]

apply_report-id :
    (now : ℕ) (j : Job) (r : Report) (w : World) → (apply_report now j r w).0.job.id ≡ j.id
unfolding apply_report
apply_report-id now j r w = record_end-id now r.status _ (record j { log_bytes = _ }) _

probe-id :
    (hosts : Hosts) (now : ℕ) (j : Job) (w : World)
    → (shown j (probe hosts now j w).0).job.id ≡ j.id
unfolding probe stale_status view
probe-id hosts now j w = elim (Sum-cases (hosts.prints j)) [
  | inl (error, e) ↦ rw (probe, e) refl
  | inr (output, e) ↦ elim (Option-cases (probe_report output)) [
    | inl k ↦ rw (probe, e, k) refl
    | inr (r, k) ↦ rw (probe, e, k) (apply_report-id now j r w)
  ]
]

probe_all-ids :
    (hosts : Hosts) (now : ℕ) (js : List Job) (w : World)
    → shown_ids (probe_all hosts now js w).0 ≡ job_ids js
unfolding probe_all
probe_all-ids hosts now [] w = refl
probe_all-ids hosts now (j ∷ js) w =
    rw (probe-id hosts now j w)
      (ap (λ ids. j.id ∷ ids) (probe_all-ids hosts now js (probe hosts now j w).1))

stale-ids :
    (reason : String) (js : List Job) → shown_ids (map (λ j. stale_status j reason) js) ≡ job_ids js
unfolding stale_status view
stale-ids reason [] = refl
stale-ids reason (j ∷ js) = ap (λ ids. j.id ∷ ids) (stale-ids reason js)

stuck-ids :
    (reason : String) (ps : List (ℕ × Job))
    → shown_ids (map (λ p. stale_status p.1 reason) ps) ≡ job_ids (map (λ p. p.1) ps)
unfolding stale_status view
stuck-ids reason [] = refl
stuck-ids reason (p ∷ ps) = ap (λ ids. p.1.id ∷ ids) (stuck-ids reason ps)

refresh_host-ids :
    (hosts : Hosts) (now host : ℕ) (js : List Job) (w : World)
    → shown_ids (refresh_host hosts now host js w).0 ≡ job_ids js
unfolding refresh_host
refresh_host-ids hosts now host js w = elim (Option-cases (hosts.connects host)) [
  | inl e ↦ rw (refresh_host, e) (probe_all-ids hosts now js w)
  | inr (error, e) ↦ rw (refresh_host, e) (stale-ids error js)
]

take_turn-ids :
    (hosts : Hosts) (now : ℕ) (list : List Job) (turn : ℕ × Turn) (r : List Status × World)
    → shown_ids r.0 ≡ job_ids list
    → shown_ids (take_turn hosts now list turn r).0 ≡ job_ids list
unfolding take_turn
take_turn-ids hosts now list (host, stuck) (out, w) h =
    let places = host-Placed host list in
    fill-ids (job_ids list) (of_host host 0 list) _ out
      (Placed-Fits (job_ids list) (of_host host 0 list) _ places
        (stuck-ids "stuck" (of_host host 0 list)))
      h
take_turn-ids hosts now list (host, delivered) (out, w) h =
    let places = host-Placed host list in
    fill-ids (job_ids list) (of_host host 0 list) _ out
      (Placed-Fits (job_ids list) (of_host host 0 list) _ places
        (refresh_host-ids hosts now host (map (λ p. p.1) (of_host host 0 list)) w))
      h

take_turns-ids :
    (hosts : Hosts) (now : ℕ) (list : List Job) (turns : List (ℕ × Turn)) (r : List Status × World)
    → shown_ids r.0 ≡ job_ids list
    → shown_ids (take_turns hosts now list turns r).0 ≡ job_ids list
unfolding take_turns
take_turns-ids hosts now list [] r h = h
take_turns-ids hosts now list (turn ∷ turns) r h =
    take_turns-ids hosts now list turns (take_turn hosts now list turn r)
      (take_turn-ids hosts now list turn r h)

-- Whatever the hosts answer, and in whatever order their workers deliver or hang, the statuses that a
-- refresh of a list of jobs returns are one for each job, in the order of the list.
pub refresh_all-ids :
    (hosts : Hosts) (now : ℕ) (turns : List (ℕ × Turn)) (list : List Job) (w : World)
    → shown_ids (refresh_all hosts now turns list w).0 ≡ job_ids list
unfolding refresh_all
refresh_all-ids hosts now turns list w =
    take_turns-ids hosts now list turns (prefill now list w) (prefill-ids now list w)
