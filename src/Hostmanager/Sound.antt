-- ===== src/Hostmanager/Sound.antt =====
-- What the operations of internal/hostmanager/manager.go keep of the table of hosts.
pub mod Rows
pub mod Columns
use one_ssh.Base.{
  Bool, true, false, not, ◌&&◌, ◌||◌, List, if◌then◌else◌, all, ◌==◌, ◌∙◌, ◌≡◌, sym, ap, subst,
  arith, Bool-cases, Option-cases, inl, inr,
}
use one_ssh.Store.{update_where, is_set}
use one_ssh.Store.Hosts.{Host, has_archived_jump}
use one_ssh.Store.Hosts.Find.{
  distinct_ids, distinct_ids-update_where, find_id-update_where, any-update_where, all-update_where,
}
use one_ssh.Hostmanager.Chains.{Ends, hop, EveryEnds, no_rows_left, row_and, Ends-map}

-- A host that is not archived has no archived jump host.
abbrev pub is_open : List Host → Host → Bool
is_open hosts h = is_set h.archived_at || not (has_archived_jump hosts h)

-- Ids are distinct; from every host the chain of jump hosts is in the table and ends; and no host in
-- use is behind an archived one.
pub record IsSound (hosts : List Host) : Type 0 where
  pub distinct : distinct_ids hosts ≡ true
  pub ends : EveryEnds hosts hosts
  pub open_jumps : all (is_open hosts) hosts ≡ true

module _ (q : Host → Bool) (f : Host → Host) (hosts : List Host)
    (same_id : (h : Host) → (f h).id ≡ h.id) where
  pub rows-update_where :
      (rows : List Host)
      → ((h : Host)
          → Ends (λ j. false) hosts h.jump_host_id
          → Ends (λ j. false) (update_where q f hosts) (if q h then f h else h).jump_host_id)
      → EveryEnds hosts rows
      → EveryEnds (update_where q f hosts) (update_where q f rows)
  unfolding update_where
  rows-update_where rows g no_rows_left = no_rows_left
  rows-update_where rows g (row_and h hs e rest) =
      row_and (if q h then f h else h) (update_where q f hs) (g h e) (rows-update_where hs g rest)

  -- A change that keeps the jump hosts keeps the chains.
  pub same_jump-EveryEnds :
      ((h : Host) → (f h).jump_host_id ≡ h.jump_host_id)
      → EveryEnds hosts hosts
      → EveryEnds (update_where q f hosts) (update_where q f hosts)
  same_jump-EveryEnds same_jump e =
      let jump : (h : Host) → (if q h then f h else h).jump_host_id ≡ h.jump_host_id = λ h.
        elim (Bool-cases (q h)) [
          | inl k ↦ let s = same_jump h in ground arith
          | inr k ↦ ground arith
        ] in
      let changed = update_where q f hosts in
      rows-update_where hosts
        (λ h k.
          subst (λ o. Ends (λ j. false) changed o) (sym (jump h))
            (Ends-map (λ j. false) (λ j. false) hosts changed h.jump_host_id
              (λ j g n here rest.
                hop j (if q g then f g else g) n (find_id-update_where q f same_id j hosts g here)
                  (subst (λ o. Ends (λ i. false) changed o) (sym (jump g)) rest))
              k))
        e

pub has_archived_jump-same :
    (q : Host → Bool) (f : Host → Host) (hosts : List Host) (h : Host)
    → ((g : Host) → (f g).id ≡ g.id)
    → ((g : Host) → is_set (f g).archived_at ≡ is_set g.archived_at)
    → has_archived_jump (update_where q f hosts) h ≡ has_archived_jump hosts h
unfolding has_archived_jump
has_archived_jump-same q f hosts h same_id same_archived = elim (Option-cases h.jump_host_id) [
  | inl e ↦ ground arith
  | inr (j, e) ↦
      let r =
        any-update_where q f same_id (λ g. g.id == j && is_set g.archived_at) hosts
          (λ g k. let a = same_id g in let b = same_archived g in ground arith) in
      ground arith
]

-- A change of columns that the invariant does not read.
pub mark-IsSound :
    (q : Host → Bool) (f : Host → Host) (hosts : List Host)
    → ((g : Host) → (f g).id ≡ g.id)
    → ((g : Host) → (f g).jump_host_id ≡ g.jump_host_id)
    → ((g : Host) → (f g).archived_at ≡ g.archived_at)
    → IsSound hosts
    → IsSound (update_where q f hosts)
unfolding has_archived_jump
mark-IsSound q f hosts same_id same_jump same_archived s =
    let set : (g : Host) → is_set (f g).archived_at ≡ is_set g.archived_at =
      λ g. ap is_set (same_archived g) in
    record {
      distinct = distinct_ids-update_where q f same_id hosts ∙ s.distinct;
      ends = same_jump-EveryEnds q f hosts same_id same_jump s.ends;
      open_jumps =
          all-update_where q f same_id (is_open hosts) (is_open (update_where q f hosts)) hosts
            (λ h o.
              let a = set h in
              let b = same_jump h in
              let c = has_archived_jump-same q f hosts h same_id set in
              let d = has_archived_jump-same q f hosts (f h) same_id set in ground arith)
            s.open_jumps;
    }
