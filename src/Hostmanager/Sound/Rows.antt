-- ===== src/Hostmanager/Sound/Rows.antt =====
-- What the changes of the table of hosts in internal/store/hosts_keys.go keep of it.
use one_ssh.Base.{
  ℕ, Bool, true, false, not, ◌&&◌, List, ◌∷◌, Option, none, some, if◌then◌else◌, ◌==◌, ◌∙◌, ◌≡◌,
  refl, arith, Bool-cases, Option-cases, inl, inr,
}
use one_ssh.Store.{update_where, is_set}
use one_ssh.Store.Hosts.{Host, find_id, fresh_id, has_archived_jump, created, updated}
use one_ssh.Store.Hosts.Find.{
  distinct_ids, find_id-id, find_id-fresh, fresh_id-new, find_id-only, distinct_ids-update_where,
  find_id-update_where, all-update_where, all-and_none, all-weaken,
}
use one_ssh.Hostmanager.Chains.{Ends, hop, EveryEnds, no_rows_left, row_and, Ends-map}
use one_ssh.Hostmanager.Sound.{is_open, IsSound, rows-update_where, has_archived_jump-same}

add-Ends :
    (h : Host) (hosts : List Host) (o : Option ℕ)
    → h.id ≡ fresh_id hosts
    → Ends (λ j. false) hosts o
    → Ends (λ j. false) (h ∷ hosts) o
unfolding find_id
add-Ends h hosts o new e =
    Ends-map (λ j. false) (λ j. false) hosts (h ∷ hosts) o
      (λ j g n here rest. let l = find_id-fresh j hosts g here in hop j g n (ground arith) rest) e

add-EveryEnds :
    (h : Host) (hosts rows : List Host)
    → h.id ≡ fresh_id hosts
    → EveryEnds hosts rows
    → EveryEnds (h ∷ hosts) rows
add-EveryEnds h hosts rows new no_rows_left = no_rows_left
add-EveryEnds h hosts rows new (row_and g gs e rest) =
    row_and g gs (add-Ends h hosts g.jump_host_id new e) (add-EveryEnds h hosts gs new rest)

has_archived_jump-add :
    (h : Host) (hosts : List Host) (g : Host)
    → h.archived_at ≡ none
    → has_archived_jump (h ∷ hosts) g ≡ has_archived_jump hosts g
unfolding has_archived_jump
has_archived_jump-add h hosts g e = elim (Option-cases g.jump_host_id) [
  | inl k ↦ ground arith
  | inr (j, k) ↦ ground arith
]

-- `CreateHost`, of a host whose own jump host is fit.
pub add-IsSound :
    (now : ℕ) (h : Host) (hosts : List Host)
    → IsSound hosts
    → Ends (λ j. false) hosts h.jump_host_id
    → has_archived_jump hosts h ≡ false
    → IsSound (created (fresh_id hosts) now h ∷ hosts)
unfolding distinct_ids has_archived_jump
add-IsSound now h hosts s e a =
    let row = created (fresh_id hosts) now h in
    let lift : (g : Host) → is_open hosts g ≡ true → is_open (row ∷ hosts) g ≡ true =
      λ g o. let k = has_archived_jump-add row hosts g refl in ground arith in
    record {
      distinct = let k = fresh_id-new (fresh_id hosts) hosts (omega arith) in ground arith;
      ends =
          row_and row hosts (add-Ends row hosts h.jump_host_id refl e)
            (add-EveryEnds row hosts hosts refl s.ends);
      open_jumps =
          let k = lift row (ground arith) in
          let r = all-weaken (is_open hosts) (is_open (row ∷ hosts)) hosts lift s.open_jumps in
          ground arith;
    }

abbrev differ : Bool → Bool → Bool
differ true b = not b
differ false b = b

-- The chain of the new jump host, which does not meet the changed row.
replace-Ends :
    (h : Host) (hosts : List Host) (o : Option ℕ)
    → Ends (λ j. j == h.id) hosts o
    → Ends (λ j. false) (update_where (λ g. g.id == h.id) (updated h) hosts) o
replace-Ends h hosts o e =
    Ends-map (λ j. j == h.id) (λ j. false) hosts
      (update_where (λ g. g.id == h.id) (updated h) hosts) o
      (λ j g n here rest.
        let same = find_id-id j hosts g here in
        let there =
          find_id-update_where (λ g. g.id == h.id) (updated h) (λ g. refl) j hosts g here in
        hop j g refl (ground arith) rest)
      e

replace-rows :
    (h : Host) (hosts : List Host) (o : Option ℕ)
    → Ends (λ j. j == h.id) hosts h.jump_host_id
    → Ends (λ j. false) hosts o
    → Ends (λ j. false) (update_where (λ g. g.id == h.id) (updated h) hosts) o
replace-rows h hosts o new e =
    let changed = update_where (λ g. g.id == h.id) (updated h) hosts in
    Ends-map (λ j. false) (λ j. false) hosts changed o
      (λ j g n here rest.
        let there =
          find_id-update_where (λ g. g.id == h.id) (updated h) (λ g. refl) j hosts g here in
        elim (Bool-cases (g.id == h.id)) [
          | inl k ↦
              hop j (updated h g) refl (ground arith) (replace-Ends h hosts h.jump_host_id new)
          | inr k ↦ hop j g refl (ground arith) rest
        ])
      e

updated_jump :
    (h g : Host) (hosts : List Host)
    → has_archived_jump hosts (updated h g) ≡ has_archived_jump hosts h
unfolding has_archived_jump
updated_jump h g hosts = refl

replace-open :
    (h old : Host) (hosts : List Host)
    → is_set h.archived_at ≡ is_set old.archived_at
    → is_open hosts h ≡ true
    → (g : Host)
    → (is_open hosts g
        && not (g.id == h.id && differ (is_set g.archived_at) (is_set old.archived_at)))
      ≡ true
    → is_open
        (update_where (λ g. g.id == h.id) (updated h) hosts)
        (if g.id == h.id then updated h g else g)
      ≡ true
unfolding has_archived_jump
replace-open h old hosts a o g p =
    let same : (k : Host)
        → has_archived_jump (update_where (λ g. g.id == h.id) (updated h) hosts) k
          ≡ has_archived_jump hosts k =
      λ k. has_archived_jump-same (λ g. g.id == h.id) (updated h) hosts k (λ g. refl) (λ g. refl) in
    let k = same g in let l = same (updated h g) in let new = updated_jump h g hosts in ground arith

-- `UpdateHost`, of a host whose new jump host is fit.
pub replace-IsSound :
    (h old : Host) (hosts : List Host)
    → IsSound hosts
    → find_id h.id hosts ≡ some old
    → is_set h.archived_at ≡ is_set old.archived_at
    → Ends (λ j. j == h.id) hosts h.jump_host_id
    → is_open hosts h ≡ true
    → IsSound (update_where (λ g. g.id == h.id) (updated h) hosts)
unfolding has_archived_jump
replace-IsSound h old hosts s here a e o =
    let changed = update_where (λ g. g.id == h.id) (updated h) hosts in
    let alike = λ (g : Host). differ (is_set g.archived_at) (is_set old.archived_at) in
    let one = find_id-only alike h.id hosts old s.distinct here in
    record {
      distinct =
          distinct_ids-update_where (λ g. g.id == h.id) (updated h) (λ g. refl) hosts ∙ s.distinct;
      ends =
          rows-update_where (λ g. g.id == h.id) (updated h) hosts (λ g. refl) hosts
            (λ g k. elim (Bool-cases (g.id == h.id)) [
              | inl q ↦ rw q (replace-Ends h hosts h.jump_host_id e)
              | inr q ↦ rw q (replace-rows h hosts g.jump_host_id e k)
            ])
            s.ends;
      open_jumps =
          all-update_where (λ g. g.id == h.id) (updated h) (λ g. refl)
            (λ g. is_open hosts g && not (g.id == h.id && alike g)) (is_open changed) hosts
            (replace-open h old hosts a o)
            (all-and_none (is_open hosts) (λ g. g.id == h.id && alike g) hosts s.open_jumps
              (ground arith));
    }
