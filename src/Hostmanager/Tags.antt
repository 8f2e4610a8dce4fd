-- ===== src/Hostmanager/Tags.antt =====
-- `normalizeTags` of internal/hostmanager/manager.go.
use one_ssh.Base.{
  ◌≤◌, String, Bool, true, false, not, ◌&&◌, ◌||◌, List, [], ◌∷◌, ◌++◌, str_eq, any, all, leb, ◌≡◌,
  refl, arith, subst, Bool-cases, inl, inr, length, codes, eq_refl, text_trim, any-append,
}
use one_ssh.Hostmanager.{
  Lower, done, same_tag, is_skipped, tags_from, normalize_tags, max_tag_length, max_tags_count,
}
use one_ssh.Hostmanager.Checked.{>>=-eq-done}

-- No tag is that of an earlier one, up to upper and lower case.
unfoldable pub no_repeats : Lower → List String → Bool
no_repeats lower [] = true
no_repeats lower (tag ∷ tags) = not (any (λ t. same_tag lower t tag) tags) && no_repeats lower tags

abbrev pub is_proper : String → Bool
is_proper tag = not (str_eq tag "") && leb (length (codes tag)) max_tag_length

-- A raw tag is blank, or is one of the tags.
abbrev pub is_covered : Lower → List String → String → Bool
unfolding text_trim
is_covered lower tags raw = str_eq (text_trim raw) "" || any (same_tag lower (text_trim raw)) tags

pub record IsTidy (lower : Lower) (raw tags : List String) : Type 0 where
  pub few : length tags ≤ max_tags_count
  pub proper : all is_proper tags ≡ true
  pub no_twice : no_repeats lower tags ≡ true
  pub complete : all (is_covered lower tags) raw ≡ true

same_tag_refl : (lower : Lower) (tag : String) → same_tag lower tag tag ≡ true
unfolding same_tag
same_tag_refl lower tag = eq_refl (lower tag)

no_repeats-append :
    (lower : Lower) (tag : String) (tags : List String)
    → any (same_tag lower tag) tags ≡ false
    → no_repeats lower tags ≡ true
    → no_repeats lower (tags ++ tag ∷ []) ≡ true
unfolding no_repeats
no_repeats-append lower tag [] e k = refl
no_repeats-append lower tag (t ∷ tags) e k =
    ground (
      arith,
      no_repeats-append lower tag tags,
      any-append (λ x. same_tag lower x t) tags (tag ∷ []),
    )

all-append_one :
    (p : String → Bool) (tag : String) (tags : List String)
    → all p tags ≡ true
    → p tag ≡ true
    → all p (tags ++ tag ∷ []) ≡ true
all-append_one p tag [] e k = ground arith
all-append_one p tag (t ∷ tags) e k = ground (arith, all-append_one p tag tags)

tags_from-proper :
    (lower : Lower) (tags raw out : List String)
    → tags_from lower tags raw ≡ done out
    → all is_proper tags ≡ true
    → all is_proper out ≡ true
unfolding tags_from
tags_from-proper lower tags [] out e k = ground arith
tags_from-proper lower tags (r ∷ raw) out e k =
    let tag = text_trim r in
    elim (Bool-cases (is_skipped lower tags tag)) [
      | inl s ↦ tags_from-proper lower tags raw out (ground arith) k
      | inr s ↦
          let short : is_proper tag ≡ true = ground arith in
          tags_from-proper lower (tags ++ tag ∷ []) raw out (ground arith)
            (all-append_one is_proper tag tags k short)
    ]

tags_from-no_repeats :
    (lower : Lower) (tags raw out : List String)
    → tags_from lower tags raw ≡ done out
    → no_repeats lower tags ≡ true
    → no_repeats lower out ≡ true
unfolding tags_from
tags_from-no_repeats lower tags [] out e k = ground arith
tags_from-no_repeats lower tags (r ∷ raw) out e k =
    let tag = text_trim r in
    elim (Bool-cases (is_skipped lower tags tag)) [
      | inl s ↦ tags_from-no_repeats lower tags raw out (ground arith) k
      | inr s ↦
          tags_from-no_repeats lower (tags ++ tag ∷ []) raw out (ground arith)
            (no_repeats-append lower tag tags (ground arith) k)
    ]

tags_from-extends :
    (lower : Lower) (p : String → Bool) (tags raw out : List String)
    → tags_from lower tags raw ≡ done out
    → any p tags ≡ true
    → any p out ≡ true
unfolding tags_from
tags_from-extends lower p tags [] out e k = ground arith
tags_from-extends lower p tags (r ∷ raw) out e k =
    let tag = text_trim r in
    elim (Bool-cases (is_skipped lower tags tag)) [
      | inl s ↦ tags_from-extends lower p tags raw out (ground arith) k
      | inr s ↦
          let a = any-append p tags (tag ∷ []) in
          tags_from-extends lower p (tags ++ tag ∷ []) raw out (ground arith) (ground arith)
    ]

tags_from_complete :
    (lower : Lower) (tags raw out : List String)
    → tags_from lower tags raw ≡ done out
    → all (is_covered lower out) raw ≡ true
unfolding tags_from
tags_from_complete lower tags [] out e = refl
tags_from_complete lower tags (r ∷ raw) out e =
    let tag = text_trim r in
    elim (Bool-cases (is_skipped lower tags tag)) [
      | inl s ↦
          let rest = tags_from_complete lower tags raw out (ground arith) in
          let here = tags_from-extends lower (same_tag lower tag) tags raw out (ground arith) in
          ground arith
      | inr s ↦
          let more = tags ++ tag ∷ [] in
          let rest = tags_from_complete lower more raw out (ground arith) in
          let a = any-append (same_tag lower tag) tags (tag ∷ []) in
          let own = same_tag_refl lower tag in
          let here =
            tags_from-extends lower (same_tag lower tag) more raw out (ground arith)
              (ground arith) in
          ground arith
    ]

-- The tags that are kept are at most 16, none is empty or longer than 32 characters, no two are the
-- same in lower case, and each tag of the input is blank or, in lower case, one of them.
pub normalize_tags-IsTidy :
    (lower : Lower) (raw tags : List String)
    → normalize_tags lower raw ≡ done tags
    → IsTidy lower raw tags
unfolding normalize_tags no_repeats
normalize_tags-IsTidy lower raw tags e =
    let (out, a, b) = >>=-eq-done (tags_from lower [] raw) _ e in
    let p = tags_from-proper lower [] raw out a refl in
    let n = tags_from-no_repeats lower [] raw out a refl in
    let c = tags_from_complete lower [] raw out a in
    let same : out ≡ tags = ground arith in
    subst (IsTidy lower raw) same
      (record { few = ground arith; proper = p; no_twice = n; complete = c })
