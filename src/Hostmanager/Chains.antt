-- ===== src/Hostmanager/Chains.antt =====
-- Chains of jump hosts in the table of hosts, and the walk along them in `hostFromInput`
-- (internal/hostmanager/manager.go).
use one_ssh.Base.{
  ℕ, zero, suc, Bool, false, List, [], ◌∷◌, Option, none, some, any, ◌==◌, ◌≡◌, refl, sym, subst,
  arith, Bool-cases, Option-cases, inl, inr, ◌⊎◌,
}
use one_ssh.Store.{StoreError, Result, ok, err, Faults}
use one_ssh.Store.Hosts.{Host, Inventory, find_id, get_host, jumps_to}
use one_ssh.Store.Hosts.Find.{find_id-id, find_id-any}
use one_ssh.Hostmanager.{done, walk_chain}

-- From an optional id, jump host after jump host is in the table, none is one of the bad ids, and
-- the last of them has no jump host.
pub data Ends (bad : ℕ → Bool) (hosts : List Host) : Option ℕ → Type 0 where
  direct : Ends bad hosts none
  hop :
      (j : ℕ) (h : Host)
      → bad j ≡ false
      → find_id j hosts ≡ some h
      → Ends bad hosts h.jump_host_id
      → Ends bad hosts (some j)

-- The same from the jump host of every row of a list.
pub data EveryEnds (hosts : List Host) : List Host → Type 0 where
  no_rows_left : EveryEnds hosts []
  row_and :
      (h : Host) (hs : List Host)
      → Ends (λ j. false) hosts h.jump_host_id
      → EveryEnds hosts hs
      → EveryEnds hosts (h ∷ hs)

pub Ends-map :
    (a b : ℕ → Bool) (hosts changed : List Host) (o : Option ℕ)
    → ((j : ℕ) (h : Host)
        → a j ≡ false
        → find_id j hosts ≡ some h
        → Ends b changed h.jump_host_id
        → Ends b changed (some j))
    → Ends a hosts o
    → Ends b changed o
Ends-map a b hosts changed _ f direct = direct
Ends-map a b hosts changed _ f (hop j h n e rest) =
    f j h n e (Ends-map a b hosts changed h.jump_host_id f rest)

-- A table to which no row jumps to `i` ends without `i`, if it ends and does not begin there.
pub Ends-avoids :
    (i : ℕ) (hosts : List Host) (o : Option ℕ)
    → any (jumps_to i) hosts ≡ false
    → elim o [ none ↦ false | some j ↦ j == i ] ≡ false
    → Ends (λ j. false) hosts o
    → Ends (λ j. j == i) hosts o
Ends-avoids i hosts _ f e direct = direct
Ends-avoids i hosts _ f e (hop j h n here rest) = elim (Bool-cases (jumps_to i h)) [
  | inl q ↦ let a = find_id-any (jumps_to i) j hosts h here q in absurd (ground arith)
  | inr q ↦ hop j h e here (Ends-avoids i hosts h.jump_host_id f q rest)
]

Result-cases {ℓ} :
    {A : Type ℓ} (r : Result A) → ((e : StoreError) × (r ≡ err e)) ⊎ ((a : A) × (r ≡ ok a))
Result-cases (err e) = inl (e, refl)
Result-cases (ok a) = inr (a, refl)

pub get_host-ok :
    (fails : Faults) (j : ℕ) (t : Inventory) (h : Host)
    → get_host fails j t ≡ ok h
    → find_id j t.hosts ≡ some h
unfolding get_host
get_host-ok fails j t h e = elim (Option-cases (find_id j t.hosts)) [
  | inl k ↦ ground arith
  | inr (g, k) ↦ ground arith
]

-- A walk that succeeds has seen the end of the chain, and none of the bad ids.
pub walk_chain-Ends :
    (n : ℕ) (bad : ℕ → Bool) (fails : Faults) (t : Inventory) (seen : List ℕ) (cur : Host)
    → walk_chain n bad fails t seen cur ≡ done tt
    → find_id cur.id t.hosts ≡ some cur
    → Ends bad t.hosts (some cur.id)
unfolding walk_chain
walk_chain-Ends zero bad fails t seen cur w here = cc
walk_chain-Ends (suc n) bad fails t seen cur w here = elim (Option-cases cur.jump_host_id) [
  | inl e ↦ hop cur.id cur (ground arith) here (subst (λ o. Ends bad t.hosts o) (sym e) direct)
  | inr (j, e) ↦ elim (Result-cases (get_host fails j t)) [
    | inl (d, g) ↦ absurd (ground arith)
    | inr (next, g) ↦
        let there = get_host-ok fails j t next g in
        let same = find_id-id j t.hosts next there in
        let rest =
          walk_chain-Ends n bad fails t (cur.id ∷ seen) next (ground arith)
            (subst (λ i. find_id i t.hosts ≡ some next) (sym same) there) in
        hop cur.id cur (ground arith) here (
          subst (λ o. Ends bad t.hosts o) (sym e)
            (subst (λ i. Ends bad t.hosts (some i)) same rest))
  ]
]
