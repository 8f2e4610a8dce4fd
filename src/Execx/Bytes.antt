-- ===== src/Execx/Bytes.antt =====
-- The searches of Go's `bytes` package that runner.go uses. A byte string is a list of numbers.
use one_ssh.Base.{
  ◌⊎◌, inr, ℕ, zero, suc, ◌+◌, ◌≤◌, ◌<◌, ◌≡◌, refl, ◌∙◌, Bool, true, false, ◌&&◌, ◌||◌, List, [],
  ◌∷◌, ◌++◌, Option, none, some, arith, ◌==◌, if◌then◌else◌, length, take, length-append,
}

-- `bytes.HasPrefix`.
unfoldable pub has_prefix : List ℕ → List ℕ → Bool
has_prefix [] s = true
has_prefix (m ∷ ms) [] = false
has_prefix (m ∷ ms) (c ∷ s) = m == c && has_prefix ms s

-- `bytes.Index`: `none` for -1.
unfoldable pub index_of : List ℕ → List ℕ → Option ℕ
unfolding has_prefix
index_of m [] = if has_prefix m [] then some 0 else none
index_of m (c ∷ s) =
    let later : Option ℕ = elim (index_of m s) [ none ↦ none | some i ↦ some (suc i) ] in
    if has_prefix m (c ∷ s) then some 0 else later

-- `bytes.LastIndex`.
unfoldable pub last_index_of : List ℕ → List ℕ → Option ℕ
unfolding has_prefix
last_index_of m [] = if has_prefix m [] then some 0 else none
last_index_of m (c ∷ s) = elim (last_index_of m s) [
  | none ↦ if has_prefix m (c ∷ s) then some 0 else none
  | some i ↦ some (suc i)
]

-- `bytes.IndexByte`.
unfoldable pub index_byte : ℕ → List ℕ → Option ℕ
index_byte b [] = none
index_byte b (c ∷ s) =
    let later : Option ℕ = elim (index_byte b s) [ none ↦ none | some i ↦ some (suc i) ] in
    if c == b then some 0 else later

-- `bytes.Count` of one byte.
unfoldable pub count_byte : ℕ → List ℕ → ℕ
count_byte b [] = 0
count_byte b (c ∷ s) = (if c == b then 1 else 0) + count_byte b s

pub count_byte-append :
    (b : ℕ) (xs ys : List ℕ) → count_byte b (xs ++ ys) ≡ count_byte b xs + count_byte b ys
unfolding count_byte
count_byte-append b [] ys = omega arith
count_byte-append b (x ∷ xs) ys = omega (arith, count_byte-append b xs ys)

-- Whether `m` stands anywhere in `s`, and what stands before its first place, or all of `s`.
pub occurs : List ℕ → List ℕ → Bool
occurs m [] = has_prefix m []
occurs m (c ∷ s) = has_prefix m (c ∷ s) || occurs m s

pub before : List ℕ → List ℕ → List ℕ
before m [] = []
before m (c ∷ s) = if has_prefix m (c ∷ s) then [] else c ∷ before m s

pub has_prefix-append : (m s t : List ℕ) → has_prefix m s ≡ true → has_prefix m (s ++ t) ≡ true
unfolding has_prefix
has_prefix-append [] s t h = refl
has_prefix-append (b ∷ m) [] t h = cc
has_prefix-append (b ∷ m) (c ∷ s) t h = ground (arith, has_prefix-append m s t)

pub has_prefix_long :
    (m s t : List ℕ) → length m ≤ length s → has_prefix m (s ++ t) ≡ has_prefix m s
unfolding has_prefix
has_prefix_long [] s t h = refl
has_prefix_long (b ∷ m) [] t h = absurd (omega arith)
has_prefix_long (b ∷ m) (c ∷ s) t h = ground (arith, has_prefix_long m s t)

-- Once `m` has occurred, more text changes nothing before it.
pub occurs-append : (m s t : List ℕ) → occurs m s ≡ true → occurs m (s ++ t) ≡ true
unfolding occurs
occurs-append m [] [] h = h
occurs-append m [] (c ∷ t) h = ground (arith, has_prefix-append m [] (c ∷ t))
occurs-append m (c ∷ s) t h = ground (arith, has_prefix-append m (c ∷ s) t, occurs-append m s t)

has_prefix-length : (m s : List ℕ) → has_prefix m s ≡ true → length m ≤ length s
unfolding has_prefix
has_prefix-length [] s h = omega arith
has_prefix-length (b ∷ m) [] h = cc
has_prefix-length (b ∷ m) (c ∷ s) h = ground (arith, has_prefix-length m s)

occurs-length : (m s : List ℕ) → occurs m s ≡ true → length m ≤ length s
unfolding occurs
occurs-length m [] h = has_prefix-length m [] h
occurs-length m (c ∷ s) h = ground (arith, has_prefix-length m (c ∷ s), occurs-length m s)

pub before-append : (m s t : List ℕ) → occurs m s ≡ true → before m (s ++ t) ≡ before m s
unfolding occurs before
before-append m [] [] h = refl
before-append m [] (c ∷ t) h = ground (arith, has_prefix-append m [] (c ∷ t))
before-append m (c ∷ s) t h = ground (
  arith,
  has_prefix_long m (c ∷ s) t,
  has_prefix-length m (c ∷ s),
  occurs-length m s,
  before-append m s t,
)

-- An occurrence in `e ++ s ++ t`, where there was none in `e ++ s`, starts no earlier than `s` if
-- `s` has at least all bytes of `m` but one.
abbrev pub IsLate : List ℕ → List ℕ → List ℕ → Type 0
IsLate m e s = (e ≡ []) ⊎ (length m ≤ suc (length s))

late_tail : (m s e : List ℕ) (c : ℕ) → IsLate m (c ∷ e) s → length m ≤ suc (length s)
late_tail m s e c k = ground arith

no_prefix_there :
    (m e s t : List ℕ) (c : ℕ)
    → length m ≤ suc (length s)
    → has_prefix m (c ∷ e ++ s) ≡ false
    → has_prefix m (c ∷ e ++ s ++ t) ≡ false
no_prefix_there m e s t c k h =
    has_prefix_long m (c ∷ e ++ s) t (omega (arith, length-append e s)) ∙ h

pub occurs_later :
    (m e s t : List ℕ)
    → occurs m (e ++ s) ≡ false
    → IsLate m e s
    → (occurs m (e ++ s ++ t) ≡ occurs m (s ++ t))
      × (before m (e ++ s ++ t) ≡ e ++ before m (s ++ t))
unfolding occurs before
occurs_later m [] s t h k = (refl, refl)
occurs_later m (c ∷ e) s t h k =
    let l = late_tail m s e c k in
    ground (arith, no_prefix_there m e s t c l, occurs_later m e s t (ground arith) (inr l))

-- What `index_of` finds is the first occurrence.
pub index_of-none : (m s : List ℕ) → index_of m s ≡ none → (occurs m s ≡ false) × (before m s ≡ s)
unfolding index_of occurs before
index_of-none m [] h = ground arith
index_of-none m (c ∷ s) h = ground (arith, index_of-none m s)

pub index_of-some :
    (m s : List ℕ) (i : ℕ) → index_of m s ≡ some i → (occurs m s ≡ true) × (before m s ≡ take i s)
unfolding index_of occurs before
index_of-some m [] zero h = ground arith
index_of-some m [] (suc i) h = ground arith
index_of-some m (c ∷ s) zero h = ground arith
index_of-some m (c ∷ s) (suc i) h = ground (arith, index_of-some m s i)

pub before_whole : (m s : List ℕ) → occurs m s ≡ false → before m s ≡ s
unfolding occurs before
before_whole m [] h = refl
before_whole m (c ∷ s) h = ground (arith, before_whole m s)

pub occurs_empty : (m : List ℕ) → 0 < length m → occurs m [] ≡ false
unfolding occurs has_prefix
occurs_empty [] h = absurd (omega arith)
occurs_empty (b ∷ m) h = refl
