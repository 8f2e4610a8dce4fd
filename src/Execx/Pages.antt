-- ===== src/Execx/Pages.antt =====
-- `CompleteUTF8Prefix`, `UTF8Page` and `ReadCommandOutput` of internal/execx/runner.go: a recorded
-- stream read page by page, with the parts of Go's `unicode/utf8` that they use.
pub mod Bounds
pub mod Follow
pub mod Ascii
pub mod Runes
pub mod Whole
use one_ssh.Base.{
  ℕ, zero, suc, ◌+◌, ◌-◌, Bool, true, false, not, ◌||◌, ◌&&◌, List, [], ◌∷◌, ◌++◌, Option, none,
  some, ◌==◌, ltb, leb, if◌then◌else◌, length, take, drop, ℤ, pos, negsuc, min, same, codes, get_or,
}

-- `utf8.RuneStart`.
unfoldable pub rune_start : ℕ → Bool
rune_start b = not (leb 0x80 b && ltb b 0xc0)

-- The length of the encoding that a first byte announces: 0 for ASCII and 1 for a byte that starts
-- nothing, as in the table of `unicode/utf8`.
unfoldable pub announced : ℕ → ℕ
announced b =
    if ltb b 0x80
    then 0
    else if ltb b 0xc2
    then 1
    else if ltb b 0xe0
    then 2
    else if ltb b 0xf0
    then 3
    else if ltb b 0xf5
    then 4
    else 1

-- Whether the second byte may follow the first, and whether a byte continues an encoding.
unfoldable pub accepts : ℕ → ℕ → Bool
accepts b c =
    leb (if b == 0xe0 then 0xa0 else if b == 0xf0 then 0x90 else 0x80) c
    && leb c (if b == 0xed then 0x9f else if b == 0xf4 then 0x8f else 0xbf)

unfoldable pub continues : ℕ → Bool
continues c = leb 0x80 c && leb c 0xbf

-- The end of `utf8.FullRune`, for fewer bytes than announced: whether they are wrong already.
unfoldable pub is_wrong : ℕ → List ℕ → Bool
unfolding accepts continues
is_wrong b [] = false
is_wrong b (c ∷ []) = not (accepts b c)
is_wrong b (c ∷ d ∷ rest) = not (accepts b c) || not (continues d)

-- `utf8.FullRune`.
unfoldable pub full_rune : List ℕ → Bool
unfolding announced is_wrong
full_rune [] = false
full_rune (b ∷ rest) = leb (announced b) (length (b ∷ rest)) || is_wrong b rest

-- The bytes after the first that `utf8.DecodeRune` takes, if `sz` are announced: it takes none of
-- them if one is missing or wrong.
unfoldable pub decode_rest : ℕ → ℕ → List ℕ → ℕ
unfolding accepts continues
decode_rest sz b [] = 1
decode_rest sz b (c ∷ []) = if sz == 2 && accepts b c then 2 else 1
decode_rest sz b (c ∷ d ∷ []) =
    if sz == 2 && accepts b c then 2 else if sz == 3 && accepts b c && continues d then 3 else 1
decode_rest sz b (c ∷ d ∷ e ∷ rest) =
    if sz == 2 && accepts b c
    then 2
    else if sz == 3 && accepts b c && continues d
    then 3
    else if sz == 4 && accepts b c && continues d && continues e
    then 4
    else 1

-- The size that `utf8.DecodeRune` returns.
unfoldable pub rune_size : List ℕ → ℕ
unfolding decode_rest announced
rune_size [] = 0
rune_size (b ∷ rest) = decode_rest (announced b) b rest

-- The loop of `CompleteUTF8Prefix`, from an index down to a byte that starts a rune, or to 0.
unfoldable pub last_start : ℕ → List ℕ → ℕ
unfolding rune_start
last_start zero s = zero
last_start (suc i) s =
    let before = last_start i s in if rune_start (get_or s (suc i) 0) then suc i else before

unfoldable pub complete_utf8_prefix : List ℕ → Bool → List ℕ
unfolding last_start full_rune
complete_utf8_prefix s has_more =
    if not has_more || length s == 0
    then s
    else (let start = last_start (length s - 1) s in
        if full_rune (drop start s) then s else take start s)

-- A positive `int`, as a number; 0 for all others.
abbrev pub positive : ℤ → ℕ
positive (pos n) = n
positive (negsuc n) = 0

unfoldable pub first_rune : List ℕ → List ℕ
unfolding rune_size
first_rune s =
    let size = rune_size s in take (if size == 0 || ltb (length s) size then 1 else size) s

unfoldable pub utf8_page : List ℕ → ℤ → Bool → List ℕ
unfolding complete_utf8_prefix first_rune
utf8_page s limit has_more =
    if positive limit == 0 || leb (length s) (positive limit)
    then complete_utf8_prefix s has_more
    else (let page = complete_utf8_prefix (take (positive limit) s) true in
        if ltb 0 (length page) then page else first_rune s)

-- The limit in force: 256 KiB by default, and 1 MiB at most.
unfoldable pub page_limit : ℤ → ℕ
page_limit limit =
    let l = if positive limit == 0 then 262144 else positive limit in
    if ltb 1048576 l then 1048576 else l

-- The bytes of one page of `file` from `offset` on, which is not beyond its end.
unfoldable pub page_bytes : List ℕ → ℕ → ℕ → List ℕ
unfolding utf8_page
page_bytes file offset limit =
    let s = take (min (limit + 4 - 1) (length file - offset)) (drop offset file) in
    utf8_page s (pos limit) (ltb (offset + length s) (length file))

-- One step of `strings.ToValidUTF8`: a run of wrong bytes becomes one U+FFFD.
unfoldable pub valid_from : ℕ → Bool → List ℕ → List ℕ
unfolding rune_size
valid_from zero wrong s = []
valid_from (suc fuel) wrong [] = []
valid_from (suc fuel) wrong (b ∷ s) =
    let size = rune_size (b ∷ s) in
    let bad = size == 1 && leb 0x80 b in
    (if bad then (if wrong then [] else 0xef ∷ 0xbf ∷ 0xbd ∷ []) else take size (b ∷ s))
    ++ valid_from fuel bad (drop size (b ∷ s))

-- `strings.ToValidUTF8(s, "\uFFFD")`; each round takes a byte at least.
unfoldable pub to_valid_utf8 : List ℕ → List ℕ
unfolding valid_from
to_valid_utf8 s = valid_from (length s) false s

pub record OutputChunk : Type 0 where
  pub content : List ℕ
  pub offset : ℕ
  pub next_offset : ℕ
  pub total_bytes : ℕ
  pub complete : Bool

pub data ReadResult : Type 0 where
  chunk : OutputChunk → ReadResult
  bad_run_id bad_stream expired : ReadResult

-- `OutputChunk` of an open file.
unfoldable pub read_chunk : List ℕ → ℤ → ℤ → OutputChunk
unfolding page_bytes page_limit to_valid_utf8
read_chunk file offset limit =
    let from = min (positive offset) (length file) in
    let page = page_bytes file from (page_limit limit) in
    let next = from + length page in
    record {
      content = to_valid_utf8 page;
      offset = from;
      next_offset = next;
      total_bytes = length file;
      complete = leb (length file) next;
    }

read_stored : Option (List ℕ) → ℤ → ℤ → ReadResult
unfolding read_chunk
read_stored none offset limit = expired
read_stored (some file) offset limit = chunk (read_chunk file offset limit)

-- `ReadCommandOutput`, with the test of `uuid.Parse` and the recorded files, by run and stream.
unfoldable pub read_command_output :
    (List ℕ → Bool) → (List ℕ → List ℕ → Option (List ℕ)) → List ℕ → List ℕ → ℤ → ℤ → ReadResult
unfolding read_stored
read_command_output is_uuid files id stream offset limit =
    if not (is_uuid id)
    then bad_run_id
    else if not (same stream (codes "stdout") || same stream (codes "stderr"))
    then bad_stream
    else read_stored (files id stream) offset limit
