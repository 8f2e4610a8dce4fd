-- ===== src/Sshpool/Rows.antt =====
-- What a connection may do to the table of hosts: record fingerprints (internal/sshpool/pool.go).
use one_ssh.Base.{
  ℕ, zero, suc, ◌+◌, String, Bool, true, false, List, [], ◌∷◌, ◌++◌, Option, none, some, str_eq,
  any, ltb, ◌==◌, find_first, length, inl, inr, Option-cases, if◌then◌else◌,
}
use one_ssh.Store.Hosts.{Host}
use one_ssh.Sshpool.{
  Entry, Pool, Result, ok, err, Network, max_jump_chain, Get, entry_of, get_entry, set_entry,
  set_fingerprint, is_unpinned, is_pinned_to, credentials, host_key, log_in, connect_at, connect,
  through, dial_route, dial, keep_client, open_host, use_or_open, get_step, get_within, get,
}

-- What holds of the table of hosts, and is kept when a fingerprint is recorded.
module _ (Q : List Host → Type 0)
    (records : (id : ℕ) (fp : String) (hosts : List Host)
      → Q hosts
      → Q (set_fingerprint id fp hosts)) where
  -- A property of a value that an `if` or an `elim` computes.
  if-keeps {ℓ} :
      {A : Type ℓ} (b : Bool) (x y : A × Pool)
      → Q x.1.hosts
      → Q y.1.hosts
      → Q (if b then x else y).1.hosts
  if-keeps true x y p q = p
  if-keeps false x y p q = q

  host_key-keeps :
      (net : Network) (h : Host) (fp : String) (p : Pool)
      → Q p.hosts
      → Q (host_key net h fp p).1.hosts
  unfolding host_key
  host_key-keeps net h fp p q =
      if-keeps (is_unpinned h) _ _ (if-keeps (net.records h) _ _ (records h.id fp p.hosts q) q)
        (if-keeps (is_pinned_to h fp) _ _ q q)

  log_in-keeps :
      (net : Network) (h : Host) (r : Result (Unit {0}) × Pool)
      → Q r.1.hosts
      → Q (log_in net h r).1.hosts
  log_in-keeps net h (err e, p) q = q
  log_in-keeps net h (ok u, p) q = if-keeps (net.lets_in h) _ _ q q

  connect_at-keeps :
      (net : Network) (h : Host) (p : Pool) (o : Option String)
      → Q p.hosts
      → Q (connect_at net h p o).1.hosts
  connect_at-keeps net h p none q = q
  connect_at-keeps net h p (some fp) q =
      log_in-keeps net h (host_key net h fp p) (host_key-keeps net h fp p q)

  through-keeps :
      (net : Network) (h : Host) (r : Result ℕ × Pool) → Q r.1.hosts → Q (through net h r).1.hosts
  unfolding connect
  through-keeps net h (err e, p) q = q
  through-keeps net h (ok client, p) q = connect_at-keeps net h p (net.reaches (some client) h) q

  keep_client-keeps :
      (name : String) (r : Result ℕ × Pool) → Q r.1.hosts → Q (keep_client name r).1.hosts
  unfolding keep_client set_entry
  keep_client-keeps name (err e, p) q = q
  keep_client-keeps name (ok client, p) q = q

  module _ (go : Get) (net : Network) (via : List String)
      (goes : (jump : String) (via : List String) (p : Pool)
        → Q p.hosts
        → Q (go jump via p).1.hosts) where
    dial_route-keeps :
        (h : Host) (p : Pool) (o : Option ℕ) → Q p.hosts → Q (dial_route go net h via p o).1.hosts
    unfolding dial_route connect
    dial_route-keeps h p none q = connect_at-keeps net h p (net.reaches none h) q
    dial_route-keeps h p (some id) q = elim (Option-cases (find_first (λ j. j.id == id) p.hosts)) [
      | inl e ↦ rw (dial_route, e) q
      | inr (j, e) ↦
          rw (dial_route, e)
            (through-keeps net h (go j.name (via ++ h.name ∷ []) p)
              (goes j.name (via ++ h.name ∷ []) p q))
    ]

    dial-keeps : (h : Host) (p : Pool) → Q p.hosts → Q (dial go net h via p).1.hosts
    unfolding dial
    dial-keeps h p q = elim (Option-cases (credentials net h)) [
      | inl e ↦ rw (dial, e) (dial_route-keeps h p h.jump_host_id q)
      | inr (d, e) ↦ rw (dial, e) q
    ]

    open_host-keeps :
        (name : String) (p : Pool) (o : Option Host)
        → Q p.hosts
        → Q (open_host go net name via p o).1.hosts
    unfolding open_host
    open_host-keeps name p none q = q
    open_host-keeps name p (some h) q =
        keep_client-keeps name (dial go net h via p) (dial-keeps h p q)

    use_or_open-keeps :
        (name : String) (p : Pool) (e : Entry)
        → Q p.hosts
        → Q (use_or_open go net name via p e).1.hosts
    unfolding use_or_open
    use_or_open-keeps name p e q =
        let fresh = open_host-keeps name p (find_first (λ h. str_eq h.name name) p.hosts) q in
        elim (Option-cases e.client) [
          | inl k ↦ rw (use_or_open, k) fresh
          | inr (client, k) ↦ rw (use_or_open, k) (if-keeps e.online _ _ q fresh)
        ]

  get_step-keeps :
      (go : List String → Get) (net : Network) (held : List String) (name : String)
      (via : List String) (p : Pool)
      → ((held : List String) (jump : String) (via : List String) (p : Pool)
          → Q p.hosts
          → Q (go held jump via p).1.hosts)
      → Q p.hosts
      → Q (get_step go net held name via p).1.hosts
  unfolding get_step get_entry
  get_step-keeps go net held name via p goes q = if-keeps (any (λ v. str_eq v name) via) _ _ q (
      if-keeps (ltb max_jump_chain (length via)) _ _ q (
        if-keeps (any (λ v. str_eq v name) held) _ _ q (
          use_or_open-keeps (go (held ++ name ∷ [])) net via (goes (held ++ name ∷ [])) name
            (get_entry name p) (entry_of p.entries name) q)))

  get_within-keeps :
      (fuel : ℕ) (net : Network) (held : List String) (name : String) (via : List String) (p : Pool)
      → Q p.hosts
      → Q (get_within fuel net held name via p).1.hosts
  unfolding get_within
  get_within-keeps zero net held name via p q = q
  get_within-keeps (suc fuel) net held name via p q =
      get_step-keeps (get_within fuel net) net held name via p
        (λ locked jump v r. get_within-keeps fuel net locked jump v r) q

  pub get-keeps :
      (net : Network) (name : String) (p : Pool) → Q p.hosts → Q (get net name p).1.hosts
  unfolding get
  get-keeps net name p q = get_within-keeps (max_jump_chain + 2) net [] name [] p q
