-- ===== src/Execx/Trailer.antt =====
-- `parseTrailer` of internal/execx/runner.go: the exit code and the directory that the script
-- prints behind the output of the command.
use one_ssh.Base.{
  ℕ, ◌+◌, ◌≡◌, refl, sym, ap, subst, ◌∙◌, Bool, true, false, List, [], ◌∷◌, ◌++◌, Option, none,
  some, arith, ◌==◌, if◌then◌else◌, length, take, drop, any, append_assoc, length-append, ℤ, pos,
  atoi, ◌>>=◌,
}
use one_ssh.Execx.Bytes.{has_prefix, last_index_of, index_byte}
use one_ssh.Execx.Writer.{legacy_trailer_marker}

-- The four results: the exit code, the directory, the output without the trailer, and whether
-- there was a trailer.
pub record Trailer : Type 0 where
  pub exit_code : ℤ
  pub cwd : List ℕ
  pub clean : List ℕ
  pub parsed : Bool

-- `strings.SplitN(s, sep, 2)` at a separator of one byte; `none` if there is only one part.
unfoldable pub cut_at : ℕ → List ℕ → Option (List ℕ × List ℕ)
cut_at sep [] = none
cut_at sep (c ∷ s) =
    let later : Option (List ℕ × List ℕ) = elim (cut_at sep s) [
      | none ↦ none
      | some (a, b) ↦ some (c ∷ a, b)
    ] in
    if c == sep then some ([], s) else later

unfoldable pub find_trailer : List ℕ → List ℕ → Option Trailer
unfolding last_index_of index_byte cut_at
find_trailer out marker = do
  idx ← last_index_of marker out
  let tail = drop (idx + length marker) out
  end ← index_byte 1 tail
  parts ← cut_at b':' (take end tail)
  ec ← atoi parts.0
  some (record { exit_code = ec; cwd = parts.1; clean = take idx out; parsed = true })

or_unparsed : List ℕ → Option Trailer → Trailer
or_unparsed out none = record { exit_code = pos 0; cwd = []; clean = out; parsed = false }
or_unparsed out (some t) = t

unfoldable pub parse_trailer_with_marker : List ℕ → List ℕ → Trailer
unfolding find_trailer or_unparsed
parse_trailer_with_marker out marker = or_unparsed out (find_trailer out marker)

unfoldable pub parse_trailer : List ℕ → Trailer
unfolding parse_trailer_with_marker
parse_trailer out = parse_trailer_with_marker out legacy_trailer_marker

-- The byte does not stand in the text.
abbrev pub Free : ℕ → List ℕ → Type 0
Free b s = any (λ c. c == b) s ≡ false

-- A marker begins with a newline and the byte 1, and neither of them follows in it.
abbrev pub framed : ℕ → List ℕ → List ℕ
framed c body = 10 ∷ 1 ∷ c ∷ body

prefix_over :
    (c : ℕ) (body : List ℕ) (x : ℕ) (xs : List ℕ)
    → Free 1 xs
    → has_prefix (framed c body) (x ∷ xs ++ 1 ∷ []) ≡ false
unfolding has_prefix
prefix_over c body x [] h = ground arith
prefix_over c body x (y ∷ xs) h = ground arith

last_index_none :
    (c : ℕ) (body xs : List ℕ) → Free 1 xs → last_index_of (framed c body) (xs ++ 1 ∷ []) ≡ none
unfolding last_index_of
last_index_none c body [] h = refl
last_index_none c body (x ∷ xs) h =
    ground (arith, prefix_over c body x xs, last_index_none c body xs)

last_index_here :
    (m t : List ℕ) (c : ℕ)
    → last_index_of m t ≡ none
    → has_prefix m (c ∷ t) ≡ true
    → last_index_of m (c ∷ t) ≡ some 0
unfolding last_index_of
last_index_here m t c n h = ground arith

last_index_skip :
    (m t : List ℕ) (c : ℕ)
    → last_index_of m t ≡ none
    → has_prefix m (c ∷ t) ≡ false
    → last_index_of m (c ∷ t) ≡ none
unfolding last_index_of
last_index_skip m t c n h = ground arith

last_index-append :
    (m out t : List ℕ) (i : ℕ)
    → last_index_of m t ≡ some i
    → last_index_of m (out ++ t) ≡ some (length out + i)
unfolding last_index_of
last_index-append m [] t i h = h ∙ ap some (omega arith)
last_index-append m (c ∷ out) t i h = ground (arith, last_index-append m out t i h)

has_prefix_self : (m t : List ℕ) → has_prefix m (m ++ t) ≡ true
unfolding has_prefix
has_prefix_self [] t = refl
has_prefix_self (b ∷ m) t = ground (arith, has_prefix_self m t)

drop_exact : (xs ys : List ℕ) → drop (length xs) (xs ++ ys) ≡ ys
drop_exact [] ys = refl
drop_exact (x ∷ xs) ys = drop_exact xs ys

take_exact : (xs ys : List ℕ) → take (length xs) (xs ++ ys) ≡ xs
take_exact [] ys = refl
take_exact (x ∷ xs) ys = ap (◌∷◌ x) (take_exact xs ys)

index_byte_exact :
    (b : ℕ) (xs t : List ℕ) → Free b xs → index_byte b (xs ++ b ∷ t) ≡ some (length xs)
unfolding index_byte
index_byte_exact b [] t h = ground arith
index_byte_exact b (x ∷ xs) t h = ground (arith, index_byte_exact b xs t)

cut_at_exact : (b : ℕ) (xs t : List ℕ) → Free b xs → cut_at b (xs ++ b ∷ t) ≡ some (xs, t)
unfolding cut_at
cut_at_exact b [] t h = ground arith
cut_at_exact b (x ∷ xs) t h = ground (arith, cut_at_exact b xs t)

any-Free : (b : ℕ) (xs ys : List ℕ) → Free b xs → Free b ys → Free b (xs ++ ys)
any-Free b [] ys h k = k
any-Free b (x ∷ xs) ys h k = ground (arith, any-Free b xs ys)

Free-tail : (b x : ℕ) (xs : List ℕ) → Free b (x ∷ xs) → Free b xs
Free-tail b x xs h = ground arith

-- The text that the script prints behind the output of the command.
abbrev pub trailer_text : List ℕ → List ℕ → List ℕ → List ℕ
trailer_text marker code cwd = marker ++ (code ++ b':' ∷ cwd ++ 1 ∷ [])

not_first : (c : ℕ) (body t : List ℕ) → has_prefix (framed c body) (1 ∷ t) ≡ false
unfolding has_prefix
not_first c body t = refl

module _ (c : ℕ) (body payload : List ℕ) (marker_free : Free 1 (c ∷ body))
    (payload_free : Free 1 payload) where
  marker_at_start : last_index_of (framed c body) (framed c body ++ (payload ++ 1 ∷ [])) ≡ some 0
  marker_at_start =
      let inner = c ∷ body ++ payload ++ 1 ∷ [] in
      let here : last_index_of (framed c body) (10 ∷ 1 ∷ inner) ≡ some 0 =
        last_index_here (framed c body) (1 ∷ inner) 10
          (last_index_skip (framed c body) inner 1
            (last_index_none c body (c ∷ body ++ payload)
              (any-Free 1 (c ∷ body) payload marker_free payload_free))
            (not_first c body inner))
          (subst (λ t. has_prefix (framed c body) t ≡ true)
            (sym (append_assoc (framed c body) payload (1 ∷ [])))
            (has_prefix_self (framed c body) (payload ++ 1 ∷ []))) in
      subst (λ t. last_index_of (framed c body) t ≡ some 0)
        (append_assoc (framed c body) payload (1 ∷ [])) here

  marker_found :
      (out : List ℕ)
      → last_index_of (framed c body) (out ++ (framed c body ++ (payload ++ 1 ∷ [])))
        ≡ some (length out)
  marker_found out =
      last_index-append (framed c body) out _ 0 marker_at_start ∙ ap some (omega arith)

drop_two : (xs ys zs : List ℕ) → drop (length xs + length ys) (xs ++ (ys ++ zs)) ≡ zs
drop_two xs ys zs = rw (← length-append xs ys, ← append_assoc xs ys zs) (drop_exact (xs ++ ys) zs)

-- The exit code and the directory that the script prints behind the output are read back, and the
-- output is left as it was, whatever it holds: earlier markers too. The marker is a newline, the
-- byte 1 and a text without that byte; the code is a text that `Atoi` accepts, without a colon; and
-- neither it nor the directory holds the byte 1.
pub trailer_roundtrip :
    (c : ℕ) (body out code cwd : List ℕ) (ec : ℤ)
    → Free 1 (c ∷ body)
    → Free 1 code
    → Free b':' code
    → Free 1 cwd
    → atoi code ≡ some ec
    → parse_trailer_with_marker (out ++ trailer_text (framed c body) code cwd) (framed c body)
      ≡ record { exit_code = ec; cwd = cwd; clean = out; parsed = true }
unfolding parse_trailer_with_marker
trailer_roundtrip c body out code cwd ec fm fc colon fd e =
    let m = framed c body in
    let payload = code ++ b':' ∷ cwd in
    let fp = any-Free 1 code (b':' ∷ cwd) fc fd in
    rw (
      marker_found c body payload fm fp out,
      drop_two out m (payload ++ 1 ∷ []),
      index_byte_exact 1 payload [] fp,
      take_exact payload (1 ∷ []),
      cut_at_exact b':' code cwd colon,
      e,
      take_exact out (m ++ (payload ++ 1 ∷ [])),
    )
