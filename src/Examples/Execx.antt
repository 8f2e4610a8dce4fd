-- ===== src/Examples/Execx.antt =====
-- internal/execx/runner.go at concrete inputs.
use one_ssh.Base.{
  ℕ, ◌+◌, ◌≤◌, true, false, ◌≡◌, ◌⊎◌, drop, refl, List, [], ◌∷◌, ◌++◌, codes, Option, none, some,
  length, take, pos, negsuc, atoi, arith,
}
use one_ssh.Execx.Bytes.{before}
use one_ssh.Execx.Writer.{
  LimitedWriter, write_all, finish_callback, legacy_trailer_marker, marker_of,
}
use one_ssh.Execx.Writer.Capture.{stream, IsExact, capture-IsExact}
use one_ssh.Execx.Writer.Streams.{concat}
use one_ssh.Execx.Writer.Callback.{callback_exact}
use one_ssh.Execx.Trailer.{framed, trailer_text, parse_trailer_with_marker, trailer_roundtrip}
use one_ssh.Execx.Shell.{shq, read_word, plain, shq_roundtrip}
use one_ssh.Execx.Lines.{select_lines}
use one_ssh.Execx.Lines.Joined.{count_lines}
use one_ssh.Execx.Lines.Selected.{IsSelection, select_lines-IsSelection}
use one_ssh.Execx.Pages.{page_bytes, rune_size, read_chunk}
use one_ssh.Execx.Pages.Bounds.{page_bytes_bounds}
use one_ssh.Execx.Pages.Whole.{page_bytes-whole}
use one_ssh.Execx.Pages.Follow.{Shows, IsVerbatim, follow, follow_all}

-- A writer that keeps four bytes and strips the trailer for its callback.
abbrev small : LimitedWriter
small = record {
  buf = [];
  tail = [];
  limit = 4;
  truncated = false;
  written = 0;
  newlines = 0;
  has_callback = true;
  calls = [];
  has_full = true;
  recorded = [];
  full_err = false;
  strip_trailer = true;
  trailer_marker = [];
  callback_pending = [];
  callback_stopped = false;
}

-- Three writes, the marker cut in two; the disk fails at the second.
abbrev pieces : List (Option ℕ × List ℕ)
pieces =
    (none, codes "abc") ∷ (some 2, 10 ∷ 1 ∷ codes "ONE") ∷ (none, codes "SSH:0:/tmp" ++ 1 ∷ []) ∷ []

capture-IsExact_example : IsExact (write_all pieces small) (stream pieces) 4
capture-IsExact_example =
    capture-IsExact small pieces
      (record { buf = refl; tail = refl; written = refl; newlines = refl; truncated = refl })

callback_exact_example :
    concat (finish_callback (write_all pieces small)).calls
    ≡ before legacy_trailer_marker (stream pieces)
unfolding marker_of
callback_exact_example =
    callback_exact legacy_trailer_marker small pieces
      (record { has_callback = refl; strip_trailer = refl; marker = refl }) refl refl refl
      (omega arith)

trailer_roundtrip_example :
    parse_trailer_with_marker
      (codes "ok" ++ trailer_text (framed 79 (codes "NESSH:7:")) (codes "-1") (codes "/tmp"))
      (framed 79 (codes "NESSH:7:"))
    ≡ record { exit_code = negsuc 0; cwd = codes "/tmp"; clean = codes "ok"; parsed = true }
unfolding atoi
trailer_roundtrip_example =
    trailer_roundtrip 79 (codes "NESSH:7:") (codes "ok") (codes "-1") (codes "/tmp") (negsuc 0) refl
      refl refl refl refl

shq_roundtrip_example :
    read_word plain (shq (codes "it's $HOME") ++ 32 ∷ codes "x")
    ≡ some (codes "it's $HOME", 32 ∷ codes "x")
shq_roundtrip_example = shq_roundtrip (codes "it's $HOME") 32 (codes "x") refl

select_lines_example :
    ((select_lines (codes "a" ++ 10 ∷ codes "b" ++ 10 ∷ codes "c") 2 true).total
      ≡ count_lines (codes "a" ++ 10 ∷ codes "b" ++ 10 ∷ codes "c"))
    × IsSelection
        (codes "a" ++ 10 ∷ codes "b" ++ 10 ∷ codes "c")
        2
        true
        (select_lines (codes "a" ++ 10 ∷ codes "b" ++ 10 ∷ codes "c") 2 true)
select_lines_example =
    select_lines-IsSelection (codes "a" ++ 10 ∷ codes "b" ++ 10 ∷ codes "c") 2 true (omega arith)

page_bytes_bounds_example :
    let page = page_bytes (97 ∷ 195 ∷ 169 ∷ 98 ∷ []) 1 1 in
    (page ≡ take (length page) (195 ∷ 169 ∷ 98 ∷ []))
    × (1 ≤ length page)
    × (1 + length page ≤ 4)
    × ((length page ≤ 1) ⊎ (length page ≡ rune_size (195 ∷ 169 ∷ 98 ∷ [])))
page_bytes_bounds_example =
    page_bytes_bounds (97 ∷ 195 ∷ 169 ∷ 98 ∷ []) 1 1 (omega arith) (omega arith)

follow_all_example :
    Shows (97 ∷ 195 ∷ 169 ∷ 98 ∷ []) (follow 5 (97 ∷ 195 ∷ 169 ∷ 98 ∷ []) 0 (pos 2))
    × IsVerbatim (97 ∷ 195 ∷ 169 ∷ 98 ∷ []) (follow 5 (97 ∷ 195 ∷ 169 ∷ 98 ∷ []) 0 (pos 2))
follow_all_example = follow_all (97 ∷ 195 ∷ 169 ∷ 98 ∷ []) (pos 2) 5 0 (omega arith) (omega arith)

-- The pages of a client that asks for two bytes at a time: none of them cuts the character `é`.
follow_two :
    follow 5 (97 ∷ 195 ∷ 169 ∷ 98 ∷ []) 0 (pos 2)
    ≡ some ((97 ∷ []) ∷ (195 ∷ 169 ∷ []) ∷ (98 ∷ []) ∷ [])
unfolding follow read_chunk
follow_two = refl

-- In `aéb`, a page of one byte from `é` on takes both of its bytes.
page_bytes-whole_example :
    0 + rune_size (drop (1 + 0) (97 ∷ 195 ∷ 169 ∷ 98 ∷ []))
    ≤ length (page_bytes (97 ∷ 195 ∷ 169 ∷ 98 ∷ []) 1 1)
unfolding page_bytes
page_bytes-whole_example =
    page_bytes-whole (97 ∷ 195 ∷ 169 ∷ 98 ∷ []) 1 1 0 (omega arith) (omega arith) (omega arith)
