-- ===== src/Execx/Pages/Follow.antt =====
-- Reading a whole recorded stream by following `next_offset_bytes`.
use one_ssh.Base.{
  ℕ, zero, suc, ◌+◌, ◌-◌, ◌≤◌, ◌<◌, ◌≡◌, refl, sym, ap, subst, ◌∙◌, Bool, true, false, List, [],
  ◌++◌, Option, none, some, arith, ltb, leb, if◌then◌else◌, length, take, drop, ℤ, pos, min, inl,
  inr, ◌⊎◌, drop_all, drop-drop, take-append-drop, ◌>>=◌, map, ◌∷◌, all, Bool-cases,
}
use native.Mathlib.Decide.{dec_lt}
use one_ssh.Execx.Pages.{
  complete_utf8_prefix, utf8_page, page_bytes, page_limit, to_valid_utf8, read_chunk,
}
use one_ssh.Execx.Pages.Ascii.{is_ascii, map-to_valid_utf8}
use one_ssh.Execx.Writer.Streams.{concat}
use one_ssh.Execx.Pages.Bounds.{page_bytes_bounds}

page_limit_pos : (limit : ℤ) → 0 < page_limit limit
unfolding page_limit
page_limit_pos limit = ground arith

page_bytes_end : (file : List ℕ) (limit : ℕ) → page_bytes file (length file) limit ≡ []
unfolding page_bytes utf8_page complete_utf8_prefix
page_bytes_end file limit =
    rw (drop_all (length file) file (omega arith))
      (empty (min (limit + 4 - 1) (length file - length file)))
  where
    empty :
        (k : ℕ)
        → utf8_page
            (take k [])
            (pos limit)
            (ltb (length file + length {A = ℕ} (take k [])) (length file))
          ≡ []
    empty zero = ground arith
    empty (suc k) = ground arith

-- What one page adds to the contents of the later pages.
abbrev add_page : List ℕ → Bool → Option (List (List ℕ)) → Option (List (List ℕ))
add_page content complete rest =
    if complete then some (content ∷ []) else (rest >>= λ r. some (content ∷ r))

-- A client that asks for the next page until one is complete, with the contents that it gets.
unfoldable pub follow : ℕ → List ℕ → ℕ → ℤ → Option (List (List ℕ))
follow zero file offset limit = none
follow (suc fuel) file offset limit =
    let c = read_chunk file (pos offset) limit in
    let rest = follow fuel file c.next_offset limit in add_page c.content c.complete rest

-- The contents show the pieces of a text, one after the other.
abbrev pub Shows : List ℕ → Option (List (List ℕ)) → Type 0
Shows text contents =
    (pieces : List (List ℕ)) × (contents ≡ some (map to_valid_utf8 pieces)) × (concat pieces ≡ text)

-- A text that is ASCII is the contents, one after the other.
abbrev pub IsVerbatim : List ℕ → Option (List (List ℕ)) → Type 0
IsVerbatim text contents =
    (all is_ascii text ≡ false)
    ⊎ ((pages : List (List ℕ)) × (contents ≡ some pages) × (concat pages ≡ text))

Shows-IsVerbatim :
    (text : List ℕ) (contents : Option (List (List ℕ)))
    → Shows text contents
    → IsVerbatim text contents
Shows-IsVerbatim text contents (pieces, shown, whole) = elim (Bool-cases (all is_ascii text)) [
  | inl ascii ↦
      inr (
        pieces,
        shown ∙ ap some (map-to_valid_utf8 pieces (ap (all is_ascii) whole ∙ ascii)),
        whole,
      )
  | inr other ↦ inl other
]

-- One page, from an offset that is not at the end.
read_chunk_inside :
    (file : List ℕ) (offset : ℕ) (limit : ℤ)
    → offset < length file
    → let c = read_chunk file (pos offset) limit in
      (c.content ≡ to_valid_utf8 (take (c.next_offset - offset) (drop offset file)))
      × (offset < c.next_offset)
      × (c.next_offset ≤ length file)
      × (c.complete ≡ leb (length file) c.next_offset)
unfolding read_chunk
read_chunk_inside file offset limit h =
    let e : min offset (length file) ≡ offset = omega arith in
    let page = page_bytes file offset (page_limit limit) in
    let (front, least, inside, most) =
      page_bytes_bounds file offset (page_limit limit) (page_limit_pos limit) h in
    let n : offset + length page - offset ≡ length page = omega arith in
    rw e (
      ap to_valid_utf8 (front ∙ ap (λ k. take k (drop offset file)) (sym n)),
      omega (arith, least),
      inside,
      refl,
    )

read_chunk_end :
    (file : List ℕ) (limit : ℤ)
    → let c = read_chunk file (pos (length file)) limit in (c.content ≡ []) × (c.complete ≡ true)
unfolding read_chunk to_valid_utf8
read_chunk_end file limit =
    let e : min (length file) (length file) ≡ length file = omega arith in
    rw (e, page_bytes_end file (page_limit limit)) (refl, ground arith)

module _ (file : List ℕ) (limit : ℤ) where
  slice_rest :
      (from to : ℕ) → from ≤ to → take (to - from) (drop from file) ++ drop to file ≡ drop from file
  slice_rest from to h =
      let e : from + (to - from) ≡ to = omega arith in
      ap (λ n. take (to - from) (drop from file) ++ drop n file) (sym e)
      ∙ ap (◌++◌ (take (to - from) (drop from file))) (sym (drop-drop (to - from) from file))
      ∙ take-append-drop (to - from) (drop from file)

  add_page-Shows :
      (offset next : ℕ) (content : List ℕ) (complete : Bool) (rest : Option (List (List ℕ)))
      → content ≡ to_valid_utf8 (take (next - offset) (drop offset file))
      → offset ≤ next
      → complete ≡ leb (length file) next
      → Shows (drop next file) rest
      → Shows (drop offset file) (add_page content complete rest)
  add_page-Shows offset next content true rest e l d r = (
    take (next - offset) (drop offset file) ∷ [],
    ap (λ c. some (c ∷ [])) e,
    ap (◌++◌ (take (next - offset) (drop offset file))) (sym (drop_all next file (ground arith)))
        ∙ slice_rest offset next l,
  )
  add_page-Shows offset next content false rest e l d (pieces, shown, whole) = (
    take (next - offset) (drop offset file) ∷ pieces,
    rw (shown, e) refl,
    ap (◌++◌ (take (next - offset) (drop offset file))) whole ∙ slice_rest offset next l,
  )

  last_page-Shows :
      (fuel : ℕ)
      → let c = read_chunk file (pos (length file)) limit in
        Shows
          (drop (length file) file)
          (add_page c.content c.complete (follow fuel file c.next_offset limit))
  last_page-Shows fuel =
      let (e, d) = read_chunk_end file limit in
      rw (e, d)
        ([] ∷ [], unfold to_valid_utf8 in refl, sym (drop_all (length file) file (omega arith)))

  follow-Shows :
      (fuel offset : ℕ)
      → offset ≤ length file
      → length file - offset < fuel
      → Shows (drop offset file) (follow fuel file offset limit)
  unfolding follow
  follow-Shows zero offset h k = absurd (omega arith)
  follow-Shows (suc fuel) offset h k = elim (dec_lt offset (length file)) [
    | yes inside ↦
        let c = read_chunk file (pos offset) limit in
        let (e, l, n, d) = read_chunk_inside file offset limit inside in
        add_page-Shows offset c.next_offset c.content c.complete
          (follow fuel file c.next_offset limit) e (omega (arith, l)) d
          (follow-Shows fuel c.next_offset n (omega (arith, l)))
    | no beyond ↦
        let at_end : length file ≡ offset = omega arith in
        subst
          (λ o.
            let c = read_chunk file (pos o) limit in
            Shows (drop o file)
              (add_page c.content c.complete (follow fuel file c.next_offset limit)))
          at_end (last_page-Shows fuel)
  ]

-- A client that starts inside the file, or at its end, and follows `next_offset` gets every byte
-- from there on, once and in order, whatever limit it asks for: the contents of its pages are pieces
-- that make up the rest of the file, each with the wrong UTF-8 in it replaced; if the rest is ASCII,
-- the contents themselves make it up. As many pages as there are bytes left, and one more, are
-- enough.
pub follow_all :
    (file : List ℕ) (limit : ℤ) (fuel offset : ℕ)
    → offset ≤ length file
    → length file - offset < fuel
    → Shows (drop offset file) (follow fuel file offset limit)
      × IsVerbatim (drop offset file) (follow fuel file offset limit)
follow_all file limit fuel offset h k =
    let shows = follow-Shows file limit fuel offset h k in
    (shows, Shows-IsVerbatim (drop offset file) (follow fuel file offset limit) shows)
