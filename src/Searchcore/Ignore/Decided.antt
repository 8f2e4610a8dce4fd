-- ===== src/Searchcore/Ignore/Decided.antt =====
-- Which rule decides in `ignoredPath` of internal/searchcore/core.go.
use one_ssh.Base.{
  ℕ, Bool, true, false, not, ◌&&◌, ◌||◌, List, [], ◌∷◌, ◌++◌, if◌then◌else◌, ◌==◌, length, drop,
  ◌≡◌, refl, sym, ap, subst, ◌∙◌, ◌⊎◌, inl, inr, arith, Bool-cases,
}
use one_ssh.Execx.Bytes.{has_prefix}
use mathlib.Core.List.{append_assoc}
use one_ssh.Searchcore.Paths.{trim_prefix, base}
use one_ssh.Searchcore.Ignore.{IgnoreRule, applies, ignored_from, ignored_path}

-- A path below a directory: nothing stands before it in the root.
abbrev pub beneath : List ℕ → List ℕ → List ℕ
beneath [] rest = rest
beneath (c ∷ cs) rest = (c ∷ cs) ++ b'/' ∷ rest

-- A rule is for a path: it is not for directories alone, or the path is one; the path is below the
-- rule's directory; and the rule's expression fits what stands there, or its last name alone.
pub record IsFor (r : IgnoreRule) (relative : List ℕ) (is_directory : Bool) : Type 0 where
  pub kind : (r.directory ≡ false) ⊎ (is_directory ≡ true)
  pub rest : List ℕ
  pub place : relative ≡ beneath r.base_dir rest
  pub fits : r.test (if r.basename_only then base rest else rest) ≡ true

prefix-rest : (p s : List ℕ) → has_prefix p s ≡ true → s ≡ p ++ drop (length p) s
unfolding has_prefix
prefix-rest [] s h = refl
prefix-rest (c ∷ p) [] h = cc
prefix-rest (c ∷ p) (d ∷ s) h = ground (arith, prefix-rest p s)

has_prefix-own : (p s : List ℕ) → has_prefix p (p ++ s) ≡ true
unfolding has_prefix
has_prefix-own [] s = refl
has_prefix-own (c ∷ p) s = ground (arith, has_prefix-own p s)

drop-own : (p s : List ℕ) → drop (length p) (p ++ s) ≡ s
drop-own [] s = refl
drop-own (c ∷ p) s = drop-own p s

abbrev is_inside : List ℕ → List ℕ → Bool
is_inside dir relative = length dir == 0 || has_prefix (dir ++ b'/' ∷ []) relative

abbrev stripped : List ℕ → List ℕ → List ℕ
stripped dir relative =
    if length dir == 0 then relative else trim_prefix relative (dir ++ b'/' ∷ [])

inside-beneath :
    (dir relative : List ℕ)
    → is_inside dir relative ≡ true
    → relative ≡ beneath dir (stripped dir relative)
unfolding trim_prefix
inside-beneath [] relative h = refl
inside-beneath (c ∷ cs) relative h =
    let inside : has_prefix ((c ∷ cs) ++ b'/' ∷ []) relative ≡ true = ground arith in
    let n : (length (c ∷ cs) == 0) ≡ false = ground arith in
    rw (n, inside)
      (prefix-rest ((c ∷ cs) ++ b'/' ∷ []) relative inside
        ∙ append_assoc (c ∷ cs) (b'/' ∷ []) (drop (length ((c ∷ cs) ++ b'/' ∷ [])) relative))

beneath-inside :
    (dir rest : List ℕ)
    → (is_inside dir (beneath dir rest) ≡ true) × (stripped dir (beneath dir rest) ≡ rest)
unfolding trim_prefix
beneath-inside [] rest = (refl, refl)
beneath-inside (c ∷ cs) rest =
    let p = (c ∷ cs) ++ b'/' ∷ [] in
    let n : (length (c ∷ cs) == 0) ≡ false = ground arith in
    let e : p ++ rest ≡ (c ∷ cs) ++ b'/' ∷ rest = append_assoc (c ∷ cs) (b'/' ∷ []) rest in
    let inside : has_prefix p ((c ∷ cs) ++ b'/' ∷ rest) ≡ true =
      subst (λ s. has_prefix p s ≡ true) e (has_prefix-own p rest) in
    rw (n, inside) (refl, ap (drop (length p)) (sym e) ∙ drop-own p rest)

-- The three tests of a rule.
applies-tests :
    (r : IgnoreRule) (relative : List ℕ) (is_directory : Bool)
    → applies r relative is_directory ≡ (
        not (r.directory && not is_directory)
        && is_inside r.base_dir relative
        && r.test (
            if r.basename_only
            then base (stripped r.base_dir relative)
            else stripped r.base_dir relative))
unfolding applies
applies-tests r relative is_directory = refl

applies-IsFor :
    (r : IgnoreRule) (relative : List ℕ) (is_directory : Bool)
    → applies r relative is_directory ≡ true
    → IsFor r relative is_directory
applies-IsFor r relative is_directory h =
    let t = applies-tests r relative is_directory in
    record {
      kind = ground arith;
      rest = stripped r.base_dir relative;
      place = inside-beneath r.base_dir relative (ground arith);
      fits = ground arith;
    }

IsFor-applies :
    (r : IgnoreRule) (relative : List ℕ) (is_directory : Bool)
    → IsFor r relative is_directory
    → applies r relative is_directory ≡ true
IsFor-applies r relative is_directory f =
    let (a, b) = beneath-inside r.base_dir f.rest in
    let inside : is_inside r.base_dir relative ≡ true = rw f.place a in
    let same : stripped r.base_dir relative ≡ f.rest = rw f.place b in
    let right_kind : not (r.directory && not is_directory) ≡ true = ground arith in
    applies-tests r relative is_directory ∙ rw (right_kind, inside, same) f.fits

-- No rule of the list is for the path.
abbrev pub AreOthers : List IgnoreRule → List ℕ → Bool → Type 0
AreOthers [] relative is_directory = Unit {0}
AreOthers (r ∷ rs) relative is_directory =
    (¬ IsFor r relative is_directory) × AreOthers rs relative is_directory

-- The last rule of the list that is for the path decides, by its sign; without one it is `otherwise`.
abbrev pub Decides : List IgnoreRule → List ℕ → Bool → Bool → Bool → Type 0
Decides rules relative is_directory otherwise ignored =
    (AreOthers rules relative is_directory × (ignored ≡ otherwise))
    ⊎ ((before : List IgnoreRule) × (r : IgnoreRule) × (after : List IgnoreRule) × (rules
          ≡ before ++ r ∷ after)
        × IsFor r relative is_directory
        × AreOthers after relative is_directory
        × (ignored ≡ not r.negated))

ignored_from-Decides :
    (otherwise : Bool) (rules : List IgnoreRule) (relative : List ℕ) (is_directory : Bool)
    → Decides rules relative is_directory otherwise
        (ignored_from otherwise rules relative is_directory)
unfolding ignored_from
ignored_from-Decides otherwise [] relative is_directory = inl (tt, refl)
ignored_from-Decides otherwise (r ∷ rs) relative is_directory =
    elim (Bool-cases (applies r relative is_directory)) [
      | inl e ↦ rw e (elim (ignored_from-Decides (not r.negated) rs relative is_directory) [
        | inl (others, same) ↦
            inr ([], r, rs, refl, applies-IsFor r relative is_directory e, others, same)
        | inr (before, s, after, split, fits, others, same) ↦
            inr (r ∷ before, s, after, ap (◌∷◌ r) split, fits, others, same)
      ])
      | inr e ↦ rw e (elim (ignored_from-Decides otherwise rs relative is_directory) [
        | inl (others, same) ↦
            inl ((λ f. cc (e, IsFor-applies r relative is_directory f), others), same)
        | inr (before, s, after, split, fits, others, same) ↦
            inr (r ∷ before, s, after, ap (◌∷◌ r) split, fits, others, same)
      ])
    ]

-- Whether a path is ignored is what the last rule says that is for it: it is ignored if that rule is
-- not negated, and not ignored if it is negated or if no rule is for the path.
pub ignored_path-Decides :
    (rules : List IgnoreRule) (relative : List ℕ) (is_directory : Bool)
    → Decides rules relative is_directory false (ignored_path rules relative is_directory)
unfolding ignored_path
ignored_path-Decides rules relative is_directory =
    ignored_from-Decides false rules relative is_directory
