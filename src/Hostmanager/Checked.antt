-- ===== src/Hostmanager/Checked.antt =====
-- What the checks of `hostFromInput` leave to hold (internal/hostmanager/manager.go).
use one_ssh.Base.{
  ℕ, String, Bool, true, not, ◌&&◌, List, [], Option, none, some, str_eq, ◌≡◌, refl, sym, ap, subst,
  ◌∙◌, arith, Bool-cases, Option-cases, inl, inr, ℕ, text_trim,
}
use one_ssh.Store.{Faults, is_set}
use one_ssh.Store.Hosts.{
  Host, Inventory, find_id, find_name, get_host_by_name, get_key, has_archived_jump,
}
use one_ssh.Store.Hosts.Find.{distinct_ids, find_name-id, find_id-only}
use one_ssh.Hostmanager.{
  Input, Answer, done, failed, ◌>>=◌, classified, classify_named, Lower, Seal, is_blank,
  basic_fields, check_basic, with_key, with_password, check_auth, walk_chain, max_levels, link_jump,
  check_jump, is_changed, normalize_tags, host_from_input,
}
use one_ssh.Hostmanager.Chains.{Ends, direct, walk_chain-Ends}
use one_ssh.Hostmanager.Sound.{is_open}

-- A step and the rest that end well: the step does, and the rest on its value.
pub >>=-eq-done {κ ℓ} :
    {B : Type κ} {A : Type ℓ} (step : Answer B) (rest : B → Answer A) {last : A}
    → (step >>= rest) ≡ done last
    → (value : B) × (step ≡ done value) × (rest value ≡ done last)
>>=-eq-done (failed e) rest h = cc
>>=-eq-done (done value) rest h = (value, refl, h)

-- A host that may be written in place of `old`, or as a new row.
pub record IsFit (bad : ℕ → Bool) (hosts : List Host) (old h : Host) : Type 0 where
  pub same_id : h.id ≡ old.id
  pub same_archived : h.archived_at ≡ old.archived_at
  pub ends : Ends bad hosts h.jump_host_id
  pub open_jump : is_open hosts h ≡ true

-- The columns that the checks before those on the jump host keep.
record Kept (old h : Host) : Type 0 where
  same_id : h.id ≡ old.id
  same_archived : h.archived_at ≡ old.archived_at

check_basic-Kept :
    (updating : Bool) (in_ : Input) (old h : Host)
    → check_basic updating in_ old ≡ done h
    → Kept old h
unfolding check_basic basic_fields
check_basic-Kept updating in_ old h e = record {
  same_id = ground arith;
  same_archived = ground arith;
}

with_key-Kept :
    (fails : Faults) (g h : Host) (t : Inventory) (o : Option ℕ)
    → with_key fails g t o ≡ done h
    → Kept g h
unfolding get_key
with_key-Kept fails g h t none e = cc
with_key-Kept fails g h t (some id) e = record {
  same_id = ground arith;
  same_archived = ground arith;
}

with_password-Kept :
    (seal : Seal) (updating : Bool) (old g h : Host) (o : Option String)
    → with_password seal updating old g o ≡ done h
    → Kept g h
unfolding with_password
with_password-Kept seal updating old g h none e = record {
  same_id = ground arith;
  same_archived = ground arith;
}
with_password-Kept seal updating old g h (some password) e = record {
  same_id = ground arith;
  same_archived = ground arith;
}

check_auth-Kept :
    (seal : Seal) (fails : Faults) (updating : Bool) (in_ : Input) (old : Host) (t : Inventory)
    (g h : Host)
    → check_auth seal fails updating in_ old t g ≡ done h
    → Kept g h
unfolding check_auth
check_auth-Kept seal fails updating in_ old t g h e =
    elim (Bool-cases (str_eq in_.auth_type "key")) [
      | inl k ↦ with_key-Kept fails g h t in_.key_id (ground arith)
      | inr k ↦ elim (Bool-cases (str_eq in_.auth_type "password")) [
        | inl l ↦ with_password-Kept seal updating old g h in_.password (ground arith)
        | inr l ↦ absurd (ground arith)
      ]
    ]

-- The row of a name, as the checks of a jump host find it.
get_host_by_name-ok :
    (fails : Faults) (name : String) (t : Inventory) (jump : Host)
    → classified classify_named (get_host_by_name fails name t) ≡ done jump
    → find_name name t.hosts ≡ some jump
unfolding get_host_by_name
get_host_by_name-ok fails name t jump e = elim (Option-cases (find_name name t.hosts)) [
  | inl k ↦ absurd (ground arith)
  | inr (g, k) ↦ ground arith
]

link_jump-IsFit :
    (fails : Faults) (bad : ℕ → Bool) (t : Inventory) (g jump h : Host)
    → distinct_ids t.hosts ≡ true
    → find_id jump.id t.hosts ≡ some jump
    → link_jump fails bad t g jump ≡ done h
    → IsFit bad t.hosts g h
unfolding link_jump has_archived_jump
link_jump-IsFit fails bad t g jump h d here e =
    elim (Bool-cases (is_set jump.archived_at && not (is_set g.archived_at))) [
      | inl k ↦ absurd (ground arith)
      | inr k ↦
          let e : (do
            ends ← walk_chain max_levels bad fails t [] jump
            done (record g { jump_host_id = some jump.id }))
              ≡ done h =
            ground arith in
          let (u, w, l) = >>=-eq-done (walk_chain max_levels bad fails t [] jump) _ e in
          let chain = walk_chain-Ends max_levels bad fails t [] jump w here in
          let jump_open = find_id-only (λ x. is_set x.archived_at) jump.id t.hosts jump d here in
          let same : h ≡ record g { jump_host_id = some jump.id } = ground arith in
          record {
            same_id = ap (λ x. x.id) same;
            same_archived = ap (λ x. x.archived_at) same;
            ends = subst (λ x. Ends bad t.hosts x.jump_host_id) (sym same) chain;
            open_jump = subst (λ x. is_open t.hosts x ≡ true) (sym same) (ground arith);
          }
    ]

check_jump-IsFit :
    (fails : Faults) (bad : ℕ → Bool) (in_ : Input) (t : Inventory) (g h : Host)
    → distinct_ids t.hosts ≡ true
    → check_jump fails bad in_ t g ≡ done h
    → IsFit bad t.hosts g h
unfolding check_jump has_archived_jump
check_jump-IsFit fails bad in_ t g h d e = elim (Bool-cases (is_blank in_.jump_host)) [
  | inl k ↦
      let same : h ≡ record g { jump_host_id = none } = ground arith in
      record {
        same_id = ap (λ x. x.id) same;
        same_archived = ap (λ x. x.archived_at) same;
        ends = subst (λ x. Ends bad t.hosts x.jump_host_id) (sym same) direct;
        open_jump = subst (λ x. is_open t.hosts x ≡ true) (sym same) (ground arith);
      }
  | inr k ↦
      let name = text_trim in_.jump_host in
      let e : (do
        jump ← classified classify_named (get_host_by_name fails name t)
        link_jump fails bad t g jump)
          ≡ done h =
        ground arith in
      let (jump, w, l) =
        >>=-eq-done (classified classify_named (get_host_by_name fails name t)) _ e in
      let here = find_name-id name t.hosts jump d (get_host_by_name-ok fails name t jump w) in
      link_jump-IsFit fails bad t g jump h d here l
]

-- An input that passes is fit to be written.
pub host_from_input-IsFit :
    (lower : Lower) (seal : Seal) (fails : Faults) (updating : Bool) (t : Inventory) (old : Host)
    (in_ : Input) (h : Host)
    → distinct_ids t.hosts ≡ true
    → host_from_input lower seal fails updating t old in_ ≡ done h
    → IsFit (is_changed updating old) t.hosts old h
unfolding host_from_input has_archived_jump
host_from_input-IsFit lower seal fails updating t old in_ h d e =
    let (basic, a, e1) = >>=-eq-done (check_basic updating in_ old) _ e in
    let (with_auth, b, e2) = >>=-eq-done (check_auth seal fails updating in_ old t basic) _ e1 in
    let (with_jump, c, e3) =
      >>=-eq-done (check_jump fails (is_changed updating old) in_ t with_auth) _ e2 in
    let (tags, g, e4) = >>=-eq-done (normalize_tags lower in_.tags) _ e3 in
    let k = check_basic-Kept updating in_ old basic a in
    let l = check_auth-Kept seal fails updating in_ old t basic with_auth b in
    let f = check_jump-IsFit fails (is_changed updating old) in_ t with_auth with_jump d c in
    let same : h ≡ record with_jump { tags = tags } = ground arith in
    record {
      same_id = ap (λ x. x.id) same ∙ f.same_id ∙ l.same_id ∙ k.same_id;
      same_archived =
          ap (λ x. x.archived_at) same ∙ f.same_archived ∙ l.same_archived ∙ k.same_archived;
      ends = subst (λ x. Ends (is_changed updating old) t.hosts x.jump_host_id) (sym same) f.ends;
      open_jump = subst (λ x. is_open t.hosts x ≡ true) (sym same) f.open_jump;
    }
