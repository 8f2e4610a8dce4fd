-- ===== src/Execx/Writer.antt =====
-- `limitedWriter` of internal/execx/runner.go: it keeps the head and the tail of one output stream,
-- copies it to the command's record and streams it to a callback.
pub mod Capture
pub mod Streams
pub mod Callback
use one_ssh.Base.{
  ℕ, zero, suc, ◌+◌, ◌-◌, ◌/◌, min, max, Bool, true, false, List, [], ◌∷◌, ◌++◌, Option, none, some,
  if◌then◌else◌, ltb, length, take, drop, codes, ◌==◌, not, ◌&&◌, ◌||◌,
}
use one_ssh.Execx.Bytes.{index_of, count_byte}

-- `calls` is what the callback has been called with, in order, and `recorded` what `full` has
-- stored. The callback's first argument is always `stream`.
pub record LimitedWriter : Type 0 where
  pub buf : List ℕ
  pub tail : List ℕ
  pub limit : ℕ
  pub truncated : Bool
  pub written : ℕ
  pub newlines : ℕ
  pub has_callback : Bool
  pub calls : List (List ℕ)
  pub has_full : Bool
  pub recorded : List ℕ
  pub full_err : Bool
  pub strip_trailer : Bool
  pub trailer_marker : List ℕ
  pub callback_pending : List ℕ
  pub callback_stopped : Bool

-- `captureLimit`.
abbrev pub capture_limit : ℕ
capture_limit = 262144

-- "\n\x01ONESSH:"
abbrev pub legacy_trailer_marker : List ℕ
legacy_trailer_marker = 10 ∷ 1 ∷ codes "ONESSH:"

-- The loop of `callbackChunks`; each round takes at least one byte, so as many rounds as bytes do.
unfoldable pub chunks_from : ℕ → List ℕ → List (List ℕ)
chunks_from zero s = []
chunks_from (suc rounds) [] = []
chunks_from (suc rounds) (c ∷ s) =
    let n = min (length (c ∷ s)) 4096 in take n (c ∷ s) ∷ chunks_from rounds (drop n (c ∷ s))

unfoldable pub chunks : List ℕ → List (List ℕ)
unfolding chunks_from
chunks s = chunks_from (length s) s

unfoldable pub callback_chunks : List ℕ → LimitedWriter → LimitedWriter
callback_chunks s w = record w { calls = w.calls ++ chunks s }

-- `trailerMarker`, or the marker of old scripts if it is empty.
marker_or_legacy : List ℕ → List ℕ
marker_or_legacy [] = legacy_trailer_marker
marker_or_legacy (c ∷ m) = c ∷ m

unfoldable pub marker_of : LimitedWriter → List ℕ
unfolding marker_or_legacy
marker_of w = marker_or_legacy w.trailer_marker

-- The tail of `emitCallback`, once the bytes have been added to `pending` and the marker has been
-- looked for; `kept` is `len(marker) - 1`.
unfoldable pub emit_step : Option ℕ → ℕ → List ℕ → LimitedWriter → LimitedWriter
unfolding callback_chunks
emit_step (some index) kept pending w = record (callback_chunks (take index pending) w) {
  callback_pending = [];
  callback_stopped = true;
}
emit_step none kept pending w =
    if ltb kept (length pending)
    then record (callback_chunks (take (length pending - kept) pending) w) {
      callback_pending = drop (length pending - kept) pending;
    }
    else record w { callback_pending = pending }

unfoldable pub emit_pending : List ℕ → LimitedWriter → LimitedWriter
unfolding emit_step
emit_pending pending w =
    let marker = marker_of w in emit_step (index_of marker pending) (length marker - 1) pending w

unfoldable pub emit_callback : List ℕ → LimitedWriter → LimitedWriter
unfolding emit_pending callback_chunks
emit_callback p w =
    if not w.has_callback || w.callback_stopped
    then w
    else if not w.strip_trailer
    then callback_chunks p w
    else emit_pending (w.callback_pending ++ p) w

-- The write to `full`: `failed` is `some n` if it stops with an error after `n` bytes.
unfoldable pub write_full : Option ℕ → List ℕ → LimitedWriter → LimitedWriter
write_full failed p w =
    if w.has_full && not w.full_err
    then elim failed [
      | none ↦ record w { recorded = w.recorded ++ p }
      | some n ↦ record w { recorded = w.recorded ++ take n p; full_err = true }
    ]
    else w

-- The head and the tail that `Write` keeps.
unfoldable pub store : List ℕ → LimitedWriter → LimitedWriter
store p w =
    let head_limit = (w.limit + 1) / 2 in
    let head_len = min (head_limit - length w.buf) (length p) in
    let tail_limit = w.limit - head_limit in
    let grown = w.tail ++ drop head_len p in
    record w {
      buf = w.buf ++ take head_len p;
      tail =
          if ltb head_len (length p)
          then (if ltb tail_limit (length grown)
              then drop (length grown - tail_limit) grown
              else grown)
          else w.tail;
      written = w.written + length p;
      newlines = w.newlines + count_byte 10 p;
      truncated = ltb w.limit (w.written + length p);
    }

unfoldable pub write : Option ℕ → List ℕ → LimitedWriter → LimitedWriter
unfolding emit_callback write_full store
write failed p w = store p (emit_callback p (write_full failed p w))

-- The writes of a stream, each with what the disk does.
unfoldable pub write_all : List (Option ℕ × List ℕ) → LimitedWriter → LimitedWriter
write_all [] w = w
write_all ((failed, p) ∷ ps) w = write_all ps (write failed p w)

unfoldable pub finish_callback : LimitedWriter → LimitedWriter
unfolding callback_chunks
finish_callback w =
    record (if not w.callback_stopped then callback_chunks w.callback_pending w else w) {
      callback_pending = [];
    }

unfoldable pub captured : LimitedWriter → List ℕ
captured w = w.buf ++ w.tail
