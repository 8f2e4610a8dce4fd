-- ===== src/Store/Hosts/Find.antt =====
-- Rows of the table of hosts by their ids and names (internal/store/hosts_keys.go).
use one_ssh.Base.{
  ℕ, ◌≤◌, ◌<◌, String, Bool, true, false, not, ◌&&◌, List, [], ◌∷◌, some, if◌then◌else◌, any, all,
  keep, ◌==◌, ◌≡◌, refl, ap, arith, Bool-cases, inl, inr, subst,
}
use one_ssh.Store.{update_where}
use one_ssh.Store.Hosts.{Host, fresh_id, find_id, find_name}

-- No two rows have the same id.
unfoldable pub distinct_ids : List Host → Bool
distinct_ids [] = true
distinct_ids (h ∷ hs) = not (any (λ g. g.id == h.id) hs) && distinct_ids hs

pub find_id-id : (j : ℕ) (hosts : List Host) (h : Host) → find_id j hosts ≡ some h → h.id ≡ j
unfolding find_id
find_id-id j [] h e = cc
find_id-id j (g ∷ hosts) h e = ground (arith, find_id-id j hosts h)

pub find_id-fresh :
    (j : ℕ) (hosts : List Host) (h : Host) → find_id j hosts ≡ some h → j < fresh_id hosts
unfolding find_id fresh_id
find_id-fresh j [] h e = cc
find_id-fresh j (g ∷ hosts) h e = ground (arith, find_id-fresh j hosts h)

pub fresh_id-new :
    (n : ℕ) (hosts : List Host) → fresh_id hosts ≤ n → any (λ g. g.id == n) hosts ≡ false
unfolding fresh_id
fresh_id-new n [] h = refl
fresh_id-new n (g ∷ hosts) h = ground (arith, fresh_id-new n hosts)

-- A row that a look-up answers is one of the table.
pub find_id-any :
    (p : Host → Bool) (j : ℕ) (hosts : List Host) (h : Host)
    → find_id j hosts ≡ some h
    → p h ≡ true
    → any p hosts ≡ true
unfolding find_id
find_id-any p j [] h e q = cc
find_id-any p j (g ∷ hosts) h e q = ground (arith, find_id-any p j hosts h)

pub find_id-all :
    (p : Host → Bool) (j : ℕ) (hosts : List Host) (h : Host)
    → find_id j hosts ≡ some h
    → all p hosts ≡ true
    → p h ≡ true
unfolding find_id
find_id-all p j [] h e q = cc
find_id-all p j (g ∷ hosts) h e q = ground (arith, find_id-all p j hosts h)

find_name-any :
    (name : String) (hosts : List Host) (h : Host)
    → find_name name hosts ≡ some h
    → any (λ g. g.id == h.id) hosts ≡ true
unfolding find_name
find_name-any name [] h e = cc
find_name-any name (g ∷ hosts) h e = ground (arith, find_name-any name hosts h)

-- With distinct ids, the row that a name finds is the one that its id finds.
pub find_name-id :
    (name : String) (hosts : List Host) (h : Host)
    → distinct_ids hosts ≡ true
    → find_name name hosts ≡ some h
    → find_id h.id hosts ≡ some h
unfolding find_name find_id distinct_ids
find_name-id name [] h d e = cc
find_name-id name (g ∷ hosts) h d e =
    ground (arith, find_name-id name hosts h, find_name-any name hosts h)

module _ (q : Host → Bool) (f : Host → Host) (same_id : (h : Host) → (f h).id ≡ h.id) where
  pub any-update_where :
      (p : Host → Bool) (hosts : List Host)
      → ((h : Host) → q h ≡ true → p (f h) ≡ p h)
      → any p (update_where q f hosts) ≡ any p hosts
  unfolding update_where
  any-update_where p [] same = refl
  any-update_where p (h ∷ hosts) same = elim (Bool-cases (q h)) [
    | inl e ↦ let k = same h e in let r = any-update_where p hosts same in ground arith
    | inr e ↦ let r = any-update_where p hosts same in ground arith
  ]

  pub any-update_where-less :
      (p : Host → Bool) (hosts : List Host)
      → ((h : Host) → p h ≡ false → p (f h) ≡ false)
      → any p hosts ≡ false
      → any p (update_where q f hosts) ≡ false
  unfolding update_where
  any-update_where-less p [] less e = refl
  any-update_where-less p (h ∷ hosts) less e =
      let k = less h in let r = any-update_where-less p hosts less in ground arith

  pub all-update_where :
      (a b : Host → Bool) (hosts : List Host)
      → ((h : Host) → a h ≡ true → b (if q h then f h else h) ≡ true)
      → all a hosts ≡ true
      → all b (update_where q f hosts) ≡ true
  unfolding update_where
  all-update_where a b [] g e = refl
  all-update_where a b (h ∷ hosts) g e =
      let k = g h in let r = all-update_where a b hosts g in ground arith

  pub distinct_ids-update_where :
      (hosts : List Host) → distinct_ids (update_where q f hosts) ≡ distinct_ids hosts
  unfolding update_where distinct_ids
  distinct_ids-update_where [] = refl
  distinct_ids-update_where (h ∷ hosts) =
      let e = same_id h in
      let r = distinct_ids-update_where hosts in
      let a = any-update_where (λ g. g.id == h.id) hosts (λ g k. ap (λ i. i == h.id) (same_id g)) in
      let b =
        any-update_where (λ g. g.id == (f h).id) hosts
          (λ g k. ap (λ i. i == (f h).id) (same_id g)) in
      ground arith

  pub find_id-update_where :
      (j : ℕ) (hosts : List Host) (h : Host)
      → find_id j hosts ≡ some h
      → find_id j (update_where q f hosts) ≡ some (if q h then f h else h)
  unfolding update_where find_id
  find_id-update_where j [] h e = cc
  find_id-update_where j (g ∷ hosts) h e =
      let k = same_id g in ground (arith, find_id-update_where j hosts h)

pub all-and_none :
    (p q : Host → Bool) (hosts : List Host)
    → all p hosts ≡ true
    → any q hosts ≡ false
    → all (λ h. p h && not (q h)) hosts ≡ true
all-and_none p q [] a b = refl
all-and_none p q (h ∷ hosts) a b = ground (arith, all-and_none p q hosts)

pub all-weaken :
    (a b : Host → Bool) (hosts : List Host)
    → ((h : Host) → a h ≡ true → b h ≡ true)
    → all a hosts ≡ true
    → all b hosts ≡ true
all-weaken a b [] g e = refl
all-weaken a b (h ∷ hosts) g e = let k = g h in let r = all-weaken a b hosts g in ground arith

pub all-keep :
    (a b q : Host → Bool) (hosts : List Host)
    → ((h : Host) → a h ≡ true → b h ≡ true)
    → all a hosts ≡ true
    → all b (keep q hosts) ≡ true
all-keep a b q [] g e = refl
all-keep a b q (h ∷ hosts) g e = let k = g h in let r = all-keep a b q hosts g in ground arith

any-other :
    (p : Host → Bool) (j : ℕ) (hosts : List Host)
    → any (λ g. g.id == j) hosts ≡ false
    → any (λ g. g.id == j && p g) hosts ≡ false
any-other p j [] e = refl
any-other p j (g ∷ hosts) e = ground (arith, any-other p j hosts)

-- With distinct ids, what holds of some row with an id holds of the row that the id finds.
pub find_id-only :
    (p : Host → Bool) (j : ℕ) (hosts : List Host) (h : Host)
    → distinct_ids hosts ≡ true
    → find_id j hosts ≡ some h
    → any (λ g. g.id == j && p g) hosts ≡ p h
unfolding find_id distinct_ids
find_id-only p j [] h d e = cc
find_id-only p j (g ∷ hosts) h d e = elim (Bool-cases (g.id == j)) [
  | inl k ↦
      let same : g.id ≡ j = ground arith in
      let none_else : any (λ x. x.id == j) hosts ≡ false =
        subst (λ i. any (λ x. x.id == i) hosts ≡ false) same (ground arith) in
      let o = any-other p j hosts none_else in ground arith
  | inr k ↦ let r = find_id-only p j hosts h in ground arith
]

pub any-keep :
    (p q : Host → Bool) (hosts : List Host) → any p hosts ≡ false → any p (keep q hosts) ≡ false
any-keep p q [] e = refl
any-keep p q (h ∷ hosts) e = ground (arith, any-keep p q hosts)

pub distinct_ids-keep :
    (q : Host → Bool) (hosts : List Host)
    → distinct_ids hosts ≡ true
    → distinct_ids (keep q hosts) ≡ true
unfolding distinct_ids
distinct_ids-keep q [] d = refl
distinct_ids-keep q (h ∷ hosts) d =
    ground (arith, distinct_ids-keep q hosts, any-keep (λ g. g.id == h.id) q hosts)

pub find_id-keep :
    (i j : ℕ) (hosts : List Host) (h : Host)
    → (j == i) ≡ false
    → find_id j hosts ≡ some h
    → find_id j (keep (λ g. not (g.id == i)) hosts) ≡ some h
unfolding find_id
find_id-keep i j [] h n e = cc
find_id-keep i j (g ∷ hosts) h n e = ground (arith, find_id-keep i j hosts h)
