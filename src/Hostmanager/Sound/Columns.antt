-- ===== src/Hostmanager/Sound/Columns.antt =====
-- What deleting, archiving and taking back a host keep of the table of hosts
-- (internal/store/hosts_keys.go).
use one_ssh.Base.{
  ℕ, true, false, not, ◌&&◌, List, none, if◌then◌else◌, any, keep, ◌==◌, ◌∙◌, ◌≡◌, refl, arith,
  Bool-cases, Option-cases, inl, inr,
}
use one_ssh.Store.{update_where, is_set}
use one_ssh.Store.Hosts.{Host, jumps_to, has_archived_jump, archived}
use one_ssh.Store.Hosts.Find.{
  distinct_ids-update_where, any-update_where, any-update_where-less, all-update_where,
  all-and_none, all-keep, any-keep, distinct_ids-keep, find_id-keep,
}
use one_ssh.Hostmanager.Chains.{hop, EveryEnds, no_rows_left, row_and, Ends-map, Ends-avoids}
use one_ssh.Hostmanager.Sound.{is_open, IsSound, same_jump-EveryEnds}

remove-EveryEnds :
    (i : ℕ) (hosts rows : List Host)
    → any (jumps_to i) hosts ≡ false
    → any (jumps_to i) rows ≡ false
    → EveryEnds hosts rows
    → EveryEnds (keep (λ h. not (h.id == i)) hosts) (keep (λ h. not (h.id == i)) rows)
remove-EveryEnds i hosts _ n m no_rows_left = no_rows_left
remove-EveryEnds i hosts _ n m (row_and h hs e rest) =
    let kept = keep (λ g. not (g.id == i)) hosts in
    let tail = remove-EveryEnds i hosts hs n (ground arith) rest in
    let avoids = Ends-avoids i hosts h.jump_host_id n (ground arith) e in
    let lifted =
      Ends-map (λ j. j == i) (λ j. false) hosts kept h.jump_host_id
        (λ j g k here more. hop j g refl (find_id-keep i j hosts g k here) more) avoids in
    elim (Bool-cases (h.id == i)) [
      | inl k ↦ rw k tail
      | inr k ↦ rw k (row_and h (keep (λ g. not (g.id == i)) hs) lifted tail)
    ]

has_archived_jump-keep :
    (i : ℕ) (hosts : List Host) (h : Host)
    → has_archived_jump hosts h ≡ false
    → has_archived_jump (keep (λ g. not (g.id == i)) hosts) h ≡ false
unfolding has_archived_jump
has_archived_jump-keep i hosts h e = elim (Option-cases h.jump_host_id) [
  | inl k ↦ ground arith
  | inr (j, k) ↦
      let r = any-keep (λ g. g.id == j && is_set g.archived_at) (λ g. not (g.id == i)) hosts in
      ground arith
]

-- `DeleteHost`, of a host that no other jumps through.
pub remove-IsSound :
    (i : ℕ) (hosts : List Host)
    → IsSound hosts
    → any (jumps_to i) hosts ≡ false
    → IsSound (keep (λ h. not (h.id == i)) hosts)
unfolding has_archived_jump
remove-IsSound i hosts s n = record {
  distinct = distinct_ids-keep (λ h. not (h.id == i)) hosts s.distinct;
  ends = remove-EveryEnds i hosts hosts n n s.ends;
  open_jumps =
      all-keep (is_open hosts) (is_open (keep (λ h. not (h.id == i)) hosts)) (λ h. not (h.id == i))
        hosts (λ h o. let k = has_archived_jump-keep i hosts h in ground arith) s.open_jumps;
}

archive-open :
    (i at : ℕ) (hosts : List Host) (h : Host)
    → (is_open hosts h && not (jumps_to i h && not (is_set h.archived_at))) ≡ true
    → is_open
        (update_where (λ g. g.id == i) (archived at) hosts)
        (if h.id == i then archived at h else h)
      ≡ true
unfolding has_archived_jump
archive-open i at hosts h p = elim (Option-cases h.jump_host_id) [
  | inl k ↦ ground arith
  | inr (j, k) ↦ elim (Bool-cases (j == i)) [
    | inl same ↦ ground arith
    | inr other ↦
        let r =
          any-update_where (λ g. g.id == i) (archived at) (λ g. refl)
            (λ g. g.id == j && is_set g.archived_at) hosts (λ g q. ground arith) in
        ground arith
  ]
]

-- `ArchiveHost`, of a host that only archived hosts jump through.
pub archive-IsSound :
    (i at : ℕ) (hosts : List Host)
    → IsSound hosts
    → any (λ h. jumps_to i h && not (is_set h.archived_at)) hosts ≡ false
    → IsSound (update_where (λ h. h.id == i) (archived at) hosts)
archive-IsSound i at hosts s n = record {
  distinct =
      distinct_ids-update_where (λ h. h.id == i) (archived at) (λ g. refl) hosts ∙ s.distinct;
  ends = same_jump-EveryEnds (λ h. h.id == i) (archived at) hosts (λ g. refl) (λ g. refl) s.ends;
  open_jumps =
      all-update_where (λ h. h.id == i) (archived at) (λ g. refl)
        (λ h. is_open hosts h && not (jumps_to i h && not (is_set h.archived_at)))
        (is_open (update_where (λ h. h.id == i) (archived at) hosts)) hosts
        (archive-open i at hosts)
        (all-and_none (is_open hosts) (λ h. jumps_to i h && not (is_set h.archived_at)) hosts
          s.open_jumps n);
}

abbrev in_use : Host → Host
in_use h = record h { archived_at = none }

unarchive-open :
    (i : ℕ) (hosts : List Host) (h : Host)
    → (is_open hosts h && not (h.id == i && has_archived_jump hosts h)) ≡ true
    → is_open (update_where (λ g. g.id == i) in_use hosts) (if h.id == i then in_use h else h)
      ≡ true
unfolding has_archived_jump
unarchive-open i hosts h p = elim (Option-cases h.jump_host_id) [
  | inl k ↦ ground arith
  | inr (j, k) ↦
      let r =
        any-update_where-less (λ g. g.id == i) in_use (λ g. refl)
          (λ g. g.id == j && is_set g.archived_at) hosts (λ g q. ground arith) in
      ground arith
]

-- `UnarchiveHost`, of a host whose jump host is in use.
pub unarchive-IsSound :
    (i : ℕ) (hosts : List Host)
    → IsSound hosts
    → any (λ h. h.id == i && has_archived_jump hosts h) hosts ≡ false
    → IsSound (update_where (λ h. h.id == i) (λ h. record h { archived_at = none }) hosts)
unarchive-IsSound i hosts s n = record {
  distinct = distinct_ids-update_where (λ h. h.id == i) in_use (λ g. refl) hosts ∙ s.distinct;
  ends = same_jump-EveryEnds (λ h. h.id == i) in_use hosts (λ g. refl) (λ g. refl) s.ends;
  open_jumps =
      all-update_where (λ h. h.id == i) in_use (λ g. refl)
        (λ h. is_open hosts h && not (h.id == i && has_archived_jump hosts h))
        (is_open (update_where (λ h. h.id == i) in_use hosts)) hosts (unarchive-open i hosts)
        (all-and_none (is_open hosts) (λ h. h.id == i && has_archived_jump hosts h) hosts
          s.open_jumps n);
}
