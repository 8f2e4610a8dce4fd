-- ===== src/Execx/Writer/Callback.antt =====
-- What the callback of `limitedWriter` is handed in all, in internal/execx/runner.go.
use one_ssh.Base.{
  ℕ, ◌<◌, false, List, [], ◌∷◌, ◌++◌, Option, length, ◌≡◌, sym, subst, inl, inr, arith, append-nil,
  append_assoc, Bool-cases,
}
use one_ssh.Execx.Bytes.{before, before_whole, occurs_empty}
use one_ssh.Execx.Writer.{
  LimitedWriter, store, write, write_all, emit_callback, emit_pending, emit_step, write_full,
  finish_callback, marker_of,
}
use one_ssh.Execx.Writer.Capture.{stream}
use one_ssh.Execx.Writer.Streams.{
  open_stream, Streams.stopped, concat, Streams, concat-calls, IsStripping, emit_callback-open,
  emit_callback-stopped, emit_callback-Streams, SameCallback, Streams-SameCallback,
  IsStripping-SameCallback,
}

write_full-SameCallback :
    (failed : Option ℕ) (p : List ℕ) (w : LimitedWriter) → SameCallback (write_full failed p w) w
unfolding write_full
write_full-SameCallback failed p w = ground arith

store-SameCallback : (p : List ℕ) (w : LimitedWriter) → SameCallback (store p w) w
unfolding store
store-SameCallback p w = ground arith

emit_step-IsStripping :
    (m : List ℕ) (o : Option ℕ) (kept : ℕ) (q : List ℕ) (w : LimitedWriter)
    → IsStripping m w
    → IsStripping m (emit_step o kept q w)
unfolding emit_step marker_of
emit_step-IsStripping m o kept q w k = ground arith

emit_callback-IsStripping :
    (m : List ℕ) (p : List ℕ) (w : LimitedWriter)
    → IsStripping m w
    → IsStripping m (emit_callback p w)
emit_callback-IsStripping m p w k = elim (Bool-cases w.callback_stopped) [
  | inl st ↦ subst (IsStripping m) (sym (emit_callback-stopped m w p k st)) k
  | inr go ↦
      subst (IsStripping m) (sym (emit_callback-open m w p k go))
        (pending_kept (w.callback_pending ++ p))
]
  where
    pending_kept : (q : List ℕ) → IsStripping m (emit_pending q w)
    pending_kept q = unfold emit_pending in emit_step-IsStripping m _ _ q w k

write-IsStripping :
    (m : List ℕ) (failed : Option ℕ) (p : List ℕ) (w : LimitedWriter)
    → IsStripping m w
    → IsStripping m (write failed p w)
unfolding write
write-IsStripping m failed p w k =
    let v = write_full failed p w in
    IsStripping-SameCallback m _ (emit_callback p v) (store-SameCallback p (emit_callback p v)) (
      emit_callback-IsStripping m p v
        (IsStripping-SameCallback m v w (write_full-SameCallback failed p w) k))

write-Streams :
    (m : List ℕ) (failed : Option ℕ) (p : List ℕ) (w : LimitedWriter) (s : List ℕ)
    → IsStripping m w
    → Streams m w s
    → Streams m (write failed p w) (s ++ p)
unfolding write
write-Streams m failed p w s k h =
    let v = write_full failed p w in
    let same = write_full-SameCallback failed p w in
    Streams-SameCallback m _ (emit_callback p v) (s ++ p) (store-SameCallback p (emit_callback p v))
      (emit_callback-Streams m v s p (IsStripping-SameCallback m v w same k)
        (Streams-SameCallback m v w s same h))

write_all-Streams :
    (m : List ℕ) (ps : List (Option ℕ × List ℕ)) (w : LimitedWriter) (s : List ℕ)
    → IsStripping m w
    → Streams m w s
    → Streams m (write_all ps w) (s ++ stream ps)
unfolding write_all
write_all-Streams m [] w s k h = rw append-nil h
write_all-Streams m ((failed, p) ∷ ps) w s k h = rw (← append_assoc s p (stream ps)) (
    write_all-Streams m ps (write failed p w) (s ++ p) (write-IsStripping m failed p w k)
      (write-Streams m failed p w s k h))

finish-Streams :
    (m : List ℕ) (w : LimitedWriter) (s : List ℕ)
    → Streams m w s
    → concat (finish_callback w).calls ≡ before m s
unfolding finish_callback
finish-Streams m w s (open_stream go o e l) =
    ground (arith, concat-calls w.callback_pending w, before_whole m s o)
finish-Streams m w s (stopped st o c) = ground arith

-- The callback of a stream that ends in a trailer is handed exactly what stands before the first
-- marker, or the whole stream if there is none: however the stream is cut into writes, also through
-- the marker.
pub callback_exact :
    (m : List ℕ) (w : LimitedWriter) (ps : List (Option ℕ × List ℕ))
    → IsStripping m w
    → w.calls ≡ []
    → w.callback_pending ≡ []
    → w.callback_stopped ≡ false
    → 0 < length m
    → concat (finish_callback (write_all ps w)).calls ≡ before m (stream ps)
callback_exact m w ps k c p go h =
    finish-Streams m (write_all ps w) (stream ps)
      (write_all-Streams m ps w [] k (open_stream go (occurs_empty m h) (rw (c, p)) (inl (rw c))))
