-- ===== src/Sshpool/Chains.antt =====
-- Chains of jump hosts in internal/sshpool/pool.go.
use one_ssh.Base.{
  ℕ, zero, suc, ◌+◌, ◌≤◌, String, Bool, true, false, not, List, [], ◌∷◌, ◌++◌, Option, none, some,
  str_eq, any, ltb, ◌==◌, find_first, length, ◌≡◌, refl, arith, inl, inr, Bool-cases, Option-cases,
  length-append, eq_iff, subst,
}
use one_ssh.Store.Hosts.{Host}
use one_ssh.Sshpool.{
  Entry, Pool, DialError, jump_failed, deadlocked, out_of_fuel, Result, ok, err, Network,
  max_jump_chain, Get, entry_of, get_entry, credentials, host_key, log_in, connect_at, connect,
  through, dial_route, dial, keep_client, open_host, use_or_open, get_step, get_within, get,
}

-- The call does not come to an end, at the host itself or at one of the jump hosts: it waits for its
-- own lock, or calls itself beyond the fuel.
abbrev pub ran_out : DialError → Bool
ran_out out_of_fuel = true
ran_out deadlocked = true
ran_out (jump_failed e) = ran_out e
ran_out e = false

abbrev pub is_answer {ℓ} : {A : Type ℓ} → Result A × Pool → Bool
is_answer (ok a, p) = true
is_answer (err e, p) = not (ran_out e)

host_key-is_answer :
    (net : Network) (h : Host) (fp : String) (p : Pool) → is_answer (host_key net h fp p) ≡ true
unfolding host_key
host_key-is_answer net h fp p = ground arith

log_in-is_answer :
    (net : Network) (h : Host) (r : Result (Unit {0}) × Pool)
    → is_answer r ≡ true
    → is_answer (log_in net h r) ≡ true
log_in-is_answer net h (ok u, p) k = ground arith
log_in-is_answer net h (err e, p) k = k

connect_at-is_answer :
    (net : Network) (h : Host) (p : Pool) (o : Option String)
    → is_answer (connect_at net h p o) ≡ true
connect_at-is_answer net h p none = refl
connect_at-is_answer net h p (some fp) =
    log_in-is_answer net h (host_key net h fp p) (host_key-is_answer net h fp p)

through-is_answer :
    (net : Network) (h : Host) (r : Result ℕ × Pool)
    → is_answer r ≡ true
    → is_answer (through net h r) ≡ true
unfolding connect
through-is_answer net h (ok c, p) k = connect_at-is_answer net h p (net.reaches (some c) h)
through-is_answer net h (err e, p) k = k

keep_client-is_answer :
    (name : String) (r : Result ℕ × Pool)
    → is_answer r ≡ true
    → is_answer (keep_client name r) ≡ true
unfolding keep_client
keep_client-is_answer name (ok c, p) k = k
keep_client-is_answer name (err e, p) k = k

credentials-known :
    (net : Network) (h : Host) (e : DialError) → credentials net h ≡ some e → ran_out e ≡ false
unfolding credentials
credentials-known net h e k = ground arith

find_first-some {ℓ} :
    {A : Type ℓ} (p : A → Bool) (xs : List A) (a : A) → find_first p xs ≡ some a → p a ≡ true
find_first-some p [] a e = cc
find_first-some p (x ∷ xs) a e = elim (Bool-cases (p x)) [
  | inl k ↦ (let same : x ≡ a = ground arith in subst (λ b. p b ≡ true) same k)
  | inr k ↦ find_first-some p xs a (ground arith)
]

module _ (go : Get) (net : Network) (name : String) (via : List String)
    (answers : (jump : String) (q : Pool) → is_answer (go jump (via ++ name ∷ []) q) ≡ true) where
  dial_route-is_answer :
      (h : Host) (p : Pool) (o : Option ℕ)
      → h.name ≡ name
      → is_answer (dial_route go net h via p o) ≡ true
  unfolding dial_route connect
  dial_route-is_answer h p none same = connect_at-is_answer net h p (net.reaches none h)
  dial_route-is_answer h p (some id) same =
      elim (Option-cases (find_first (λ j. j.id == id) p.hosts)) [
        | inl e ↦ ground arith
        | inr (j, e) ↦
            let r = go j.name (via ++ h.name ∷ []) p in
            let known : is_answer r ≡ true = rw same (answers j.name p) in
            let t = through-is_answer net h r known in ground arith
      ]

  dial-is_answer : (h : Host) (p : Pool) → h.name ≡ name → is_answer (dial go net h via p) ≡ true
  unfolding dial
  dial-is_answer h p same = elim (Option-cases (credentials net h)) [
    | inl e ↦ let t = dial_route-is_answer h p h.jump_host_id same in ground arith
    | inr (d, e) ↦ let t = credentials-known net h d e in ground arith
  ]

  open_host-is_answer :
      (p : Pool) (o : Option Host)
      → find_first (λ h. str_eq h.name name) p.hosts ≡ o
      → is_answer (open_host go net name via p o) ≡ true
  unfolding open_host
  open_host-is_answer p none e = refl
  open_host-is_answer p (some h) e = keep_client-is_answer name (dial go net h via p) (
      dial-is_answer h p
        ((eq_iff h.name name).0 (find_first-some (λ h. str_eq h.name name) p.hosts h e)))

  use_or_open-is_answer :
      (p : Pool) (e : Entry) → is_answer (use_or_open go net name via p e) ≡ true
  unfolding use_or_open
  use_or_open-is_answer p e =
      let t = open_host-is_answer p (find_first (λ h. str_eq h.name name) p.hosts) refl in
      ground arith

-- A chain that is too long already is refused, whatever the rest would do.
get_step-too_long :
    (go : List String → Get) (net : Network) (held : List String) (name : String)
    (via : List String) (p : Pool)
    → max_jump_chain + 1 ≤ length via
    → is_answer (get_step go net held name via p) ≡ true
unfolding get_step
get_step-too_long go net held name via p h =
    let l : ltb max_jump_chain (length via) ≡ true = ground arith in
    elim (Bool-cases (any (λ v. str_eq v name) via)) [ inl e ↦ rw e refl | inr e ↦ rw (e, l) refl ]

-- The names that are locked are those of the chain, so the test for a cycle comes before a lock
-- that is held.
get_step-is_answer :
    (go : List String → Get) (net : Network) (name : String) (via : List String) (p : Pool)
    → ((jump : String) (q : Pool)
        → is_answer (go (via ++ name ∷ []) jump (via ++ name ∷ []) q) ≡ true)
    → is_answer (get_step go net via name via p) ≡ true
unfolding get_step
get_step-is_answer go net name via p answers = elim (Bool-cases (any (λ v. str_eq v name) via)) [
  | inl e ↦ rw e refl
  | inr e ↦ elim (Bool-cases (ltb max_jump_chain (length via))) [
    | inl l ↦ rw (e, l) refl
    | inr l ↦
        rw (e, l)
          (use_or_open-is_answer (go (via ++ name ∷ [])) net name via answers (get_entry name p)
            (entry_of p.entries name))
  ]
]

get_within-is_answer :
    (fuel : ℕ) (net : Network) (name : String) (via : List String) (p : Pool)
    → max_jump_chain + 2 ≤ suc fuel + length via
    → is_answer (get_within (suc fuel) net via name via p) ≡ true
unfolding get_within
get_within-is_answer zero net name via p h =
    get_step-too_long (get_within 0 net) net via name via p (omega arith)
get_within-is_answer (suc fuel) net name via p h =
    get_step-is_answer (get_within (suc fuel) net) net name via p (λ jump q.
      get_within-is_answer fuel net jump (via ++ name ∷ []) q
        (omega (arith, length-append via (name ∷ []))))

-- On every table of hosts, cycles of jump hosts included, and on every network, `Get` comes to an
-- end with a client or with an error of its own: at the host and at its jump hosts, it never locks
-- an entry that it has locked already, and never calls itself more often than the fuel of the model
-- allows.
pub get-is_answer : (net : Network) (name : String) (p : Pool) → is_answer (get net name p) ≡ true
unfolding get
get-is_answer net name p = get_within-is_answer (max_jump_chain + 1) net name [] p (omega arith)
