-- ===== src/Execx/Pages/Bounds.antt =====
-- The sizes of pages in internal/execx/runner.go.
use one_ssh.Base.{
  ℕ, zero, suc, ◌+◌, ◌-◌, ◌≤◌, ◌<◌, ◌≡◌, refl, sym, ◌∙◌, Bool, true, false, not, ◌||◌, List, [],
  ◌∷◌, arith, ◌==◌, ltb, leb, if◌then◌else◌, length, take, drop, pos, min, max, Bool-cases, inl,
  inr, ◌⊎◌, length-take, length-drop, take-take, take_self, take_all, ap,
}
use native.Mathlib.Decide.{dec_le}
use one_ssh.Execx.Pages.{
  announced, full_rune, decode_rest, rune_size, last_start, complete_utf8_prefix, first_rune,
  utf8_page, page_bytes,
}

decode_rest_bounds :
    (sz b : ℕ) (s : List ℕ)
    → (1 ≤ decode_rest sz b s) × (decode_rest sz b s ≤ min 4 (suc (length s)))
unfolding decode_rest
decode_rest_bounds sz b [] = omega arith
decode_rest_bounds sz b (c ∷ []) = ground arith
decode_rest_bounds sz b (c ∷ d ∷ []) = ground arith
decode_rest_bounds sz b (c ∷ d ∷ e ∷ s) = ground arith

pub rune_size_bounds :
    (s : List ℕ) → 0 < length s → (1 ≤ rune_size s) × (rune_size s ≤ min 4 (length s))
unfolding rune_size
rune_size_bounds [] h = absurd (omega arith)
rune_size_bounds (b ∷ s) h = decode_rest_bounds (announced b) b s

pub last_start-le : (i : ℕ) (s : List ℕ) → last_start i s ≤ i
unfolding last_start
last_start-le zero s = omega arith
last_start-le (suc i) s = ground (arith, last_start-le i s)

full_rune_long : (s : List ℕ) → 4 ≤ length s → full_rune s ≡ true
unfolding full_rune announced
full_rune_long [] h = absurd (omega arith)
full_rune_long (b ∷ s) h = ground arith

-- `page` is the front of `s`, of `least` bytes at least and `most` at most.
record IsFront (page s : List ℕ) (least most : ℕ) : Type 0 where
  front : page ≡ take (length page) s
  inside : length page ≤ length s
  least_bound : least ≤ length page
  most_bound : length page ≤ most

take-IsFront :
    (k : ℕ) (s : List ℕ) (least most : ℕ)
    → k ≤ length s
    → least ≤ k
    → k ≤ most
    → IsFront (take k s) s least most
take-IsFront k s least most h l m =
    let e : length (take k s) ≡ k = omega (arith, length-take k s) in
    record { front = rw e; inside = rw e h; least_bound = rw e l; most_bound = rw e m }

whole-IsFront :
    (s : List ℕ) (least most : ℕ) → least ≤ length s → length s ≤ most → IsFront s s least most
whole-IsFront s least most l m = record {
  front = sym (take_self s);
  inside = omega arith;
  least_bound = l;
  most_bound = m;
}

full_rune_short : (s : List ℕ) → full_rune s ≡ false → length s ≤ 3
full_rune_short s h = elim (dec_le 4 (length s)) [
  | yes k ↦ cc (full_rune_long s k)
  | no k ↦ omega arith
]

-- At most three bytes are held back.
complete-IsFront :
    (s : List ℕ) (has_more : Bool)
    → IsFront (complete_utf8_prefix s has_more) s (length s - 3) (length s)
unfolding complete_utf8_prefix
complete-IsFront s has_more = elim (Bool-cases (not has_more || length s == 0)) [
  | inl e ↦ rw e (whole-IsFront s (length s - 3) (length s) (omega arith) (omega arith))
  | inr e ↦ rw e (held (last_start (length s - 1) s) (last_start-le (length s - 1) s))
]
  where
    held :
        (start : ℕ)
        → start ≤ length s - 1
        → IsFront (if full_rune (drop start s) then s else take start s) s (length s - 3) (length s)
    held start h = elim (Bool-cases (full_rune (drop start s))) [
      | inl f ↦ rw f (whole-IsFront s (length s - 3) (length s) (omega arith) (omega arith))
      | inr f ↦ rw f (
          take-IsFront start s (length s - 3) (length s) (omega arith)
            (omega (arith, full_rune_short (drop start s) f, length-drop start s)) (omega arith))
    ]

pub complete_last : (s : List ℕ) → complete_utf8_prefix s false ≡ s
unfolding complete_utf8_prefix
complete_last s = refl

IsFront-mono :
    (page s : List ℕ) (l m l' m' : ℕ) → IsFront page s l m → l' ≤ l → m ≤ m' → IsFront page s l' m'
IsFront-mono page s l m l' m' f a b = record {
  front = f.front;
  inside = f.inside;
  least_bound = omega (arith, f.least_bound);
  most_bound = omega (arith, f.most_bound);
}

IsFront-take :
    (k : ℕ) (page s : List ℕ) (l m : ℕ) → IsFront page (take k s) l m → IsFront page s l m
IsFront-take k page s l m f = record {
  front = f.front ∙ take-take (length page) k s (omega (arith, f.inside, length-take k s));
  inside = omega (arith, f.inside, length-take k s);
  least_bound = f.least_bound;
  most_bound = f.most_bound;
}

first_rune-IsFront : (s : List ℕ) → 0 < length s → IsFront (first_rune s) s 1 4
unfolding first_rune
first_rune-IsFront s h = sized (rune_size s) (rune_size_bounds s h).0 (rune_size_bounds s h).1
  where
    sized :
        (n : ℕ)
        → 1 ≤ n
        → n ≤ min 4 (length s)
        → IsFront (take (if n == 0 || ltb (length s) n then 1 else n) s) s 1 4
    sized n a b =
        let e : (n == 0 || ltb (length s) n) ≡ false = ground arith in
        rw e (take-IsFront n s 1 4 (omega arith) a (omega arith))

-- Four bytes are enough to find the size of the first character.
decode_rest-take :
    (sz b k : ℕ) (s : List ℕ) → 3 ≤ k → decode_rest sz b (take k s) ≡ decode_rest sz b s
unfolding decode_rest
decode_rest-take sz b (suc (suc (suc k))) [] h = refl
decode_rest-take sz b (suc (suc (suc k))) (c ∷ []) h = refl
decode_rest-take sz b (suc (suc (suc k))) (c ∷ d ∷ []) h = refl
decode_rest-take sz b (suc (suc (suc k))) (c ∷ d ∷ e ∷ s) h = refl
decode_rest-take sz b zero s h = absurd (omega arith)
decode_rest-take sz b (suc zero) s h = absurd (omega arith)
decode_rest-take sz b (suc (suc zero)) s h = absurd (omega arith)

rune_size-take : (k : ℕ) (s : List ℕ) → 4 ≤ k → rune_size (take k s) ≡ rune_size s
unfolding rune_size
rune_size-take zero s h = absurd (omega arith)
rune_size-take (suc k) [] h = refl
rune_size-take (suc k) (b ∷ s) h = decode_rest-take (announced b) b k s (omega arith)

pub rune_size-front :
    (s : List ℕ) (k : ℕ) → (4 ≤ k) ⊎ (length s ≤ k) → rune_size (take k s) ≡ rune_size s
rune_size-front s k (inl enough) = rune_size-take k s enough
rune_size-front s k (inr whole) = ap rune_size (take_all k s whole)

pub length-first_rune : (s : List ℕ) → 0 < length s → length (first_rune s) ≡ rune_size s
unfolding first_rune
length-first_rune s h =
    let (a, b) = rune_size_bounds s h in
    let e : (rune_size s == 0 || ltb (length s) (rune_size s)) ≡ false = ground arith in
    rw e (omega (arith, length-take (rune_size s) s))

-- A page that is longer than the limit is the first character.
utf8_page-within :
    (s : List ℕ) (limit : ℕ) (has_more : Bool)
    → 0 < limit
    → 0 < length s
    → (has_more ≡ false) ⊎ (limit < length s)
    → (length (utf8_page s (pos limit) has_more) ≤ limit)
      ⊎ (length (utf8_page s (pos limit) has_more) ≡ rune_size s)
unfolding utf8_page
utf8_page-within s limit has_more hl hs hm = elim (dec_le (length s) limit) [
  | yes small ↦
      let test : (limit == 0 || leb (length s) limit) ≡ true = ground arith in
      let last : has_more ≡ false = ground arith in rw (test, last, complete_last s) (inl small)
  | no big ↦
      let test : (limit == 0 || leb (length s) limit) ≡ false = ground arith in
      let page = complete_utf8_prefix (take limit s) true in
      let f = complete-IsFront (take limit s) true in
      rw test (elim (Bool-cases (ltb 0 (length page))) [
        | inl e ↦ rw e (inl (omega (arith, f.most_bound, length-take limit s)))
        | inr e ↦ rw e (inr (length-first_rune s hs))
      ])
]

utf8_page-IsFront :
    (s : List ℕ) (limit : ℕ) (has_more : Bool)
    → 0 < limit
    → 0 < length s
    → (has_more ≡ false) ⊎ (limit < length s)
    → IsFront (utf8_page s (pos limit) has_more) s 1 (max limit 4)
unfolding utf8_page
utf8_page-IsFront s limit has_more hl hs hm = elim (dec_le (length s) limit) [
  | yes small ↦
      let test : (limit == 0 || leb (length s) limit) ≡ true = ground arith in
      let last : has_more ≡ false = ground arith in
      rw (test, last, complete_last s) (whole-IsFront s 1 (max limit 4) hs (omega arith))
  | no big ↦
      let test : (limit == 0 || leb (length s) limit) ≡ false = ground arith in
      rw test (
        cut (complete_utf8_prefix (take limit s) true) (
          IsFront-take limit (complete_utf8_prefix (take limit s) true) s _ _
            (complete-IsFront (take limit s) true)))
]
  where
    cut :
        (page : List ℕ)
        → IsFront page s (length (take limit s) - 3) (length (take limit s))
        → IsFront (if ltb 0 (length page) then page else first_rune s) s 1 (max limit 4)
    cut page f = elim (Bool-cases (ltb 0 (length page))) [
      | inl e ↦ rw e (record {
        front = f.front;
        inside = f.inside;
        least_bound = ground arith;
        most_bound = omega (arith, f.most_bound, length-take limit s);
      })
      | inr e ↦ rw e (
          IsFront-mono (first_rune s) s 1 4 1 (max limit 4) (first_rune-IsFront s hs) (omega arith)
            (omega arith))
    ]

-- A page of a file is what stands there from the offset on, one byte at least; it has at most
-- `limit` bytes, or is exactly the first character there, as `utf8.DecodeRune` measures it.
pub page_bytes_bounds :
    (file : List ℕ) (offset limit : ℕ)
    → 0 < limit
    → offset < length file
    → let page = page_bytes file offset limit in
      (page ≡ take (length page) (drop offset file))
      × (1 ≤ length page)
      × (offset + length page ≤ length file)
      × ((length page ≤ limit) ⊎ (length page ≡ rune_size (drop offset file)))
unfolding page_bytes
page_bytes_bounds file offset limit hl ho =
    let k = min (limit + 4 - 1) (length file - offset) in
    let s = take k (drop offset file) in
    let n : length s ≡ k =
      omega (arith, length-take k (drop offset file), length-drop offset file) in
    let f =
      IsFront-take k (utf8_page s (pos limit) (ltb (offset + length s) (length file)))
        (drop offset file) 1 (max limit 4)
        (utf8_page-IsFront s limit (ltb (offset + length s) (length file)) hl (omega arith)
          (more (length s) n)) in
    let whole_rune : rune_size s ≡ rune_size (drop offset file) =
      rune_size-front (drop offset file) k (ground (arith, length-drop offset file)) in
    let within =
      utf8_page-within s limit (ltb (offset + length s) (length file)) hl (omega arith)
        (more (length s) n) in
    (
      f.front,
      f.least_bound,
      omega (arith, f.inside, length-drop offset file),
      elim within [ inl short ↦ inl short | inr first ↦ inr (first ∙ whole_rune) ],
    )
  where
    more :
        (l : ℕ)
        → l ≡ min (limit + 4 - 1) (length file - offset)
        → (ltb (offset + l) (length file) ≡ false) ⊎ (limit < l)
    more l e = ground arith
