-- ===== src/Execx/Writer/Capture.antt =====
-- What a `limitedWriter` has kept after any sequence of writes.
use one_ssh.Base.{
  ℕ, ◌+◌, ◌-◌, ◌/◌, ◌≤◌, ◌<◌, min, false, List, [], ◌∷◌, ◌++◌, Option, if◌then◌else◌, ltb, length,
  take, drop, ◌≡◌, refl, sym, ap, subst, leb, ◌∙◌, arith, last, take-append, drop-append, take-min,
  drop-min, last-last-append, length-last, length-take, length-drop, length-append, append-nil,
  append_assoc, drop-drop, take-append-drop, take_all, drop_all,
}
use native.Mathlib.Decide.{dec_le}
use one_ssh.Execx.Bytes.{count_byte, count_byte-append}
use one_ssh.Execx.Writer.{
  LimitedWriter, store, write, write_all, captured, emit_callback, emit_pending, write_full,
}

abbrev pub head_limit : ℕ → ℕ
head_limit limit = (limit + 1) / 2

-- All that has been written so far is `s`.
pub record Keeps (w : LimitedWriter) (s : List ℕ) : Type 0 where
  pub head : w.buf ≡ take (head_limit w.limit) s
  pub rear : w.tail ≡ last (w.limit - head_limit w.limit) (drop (head_limit w.limit) s)
  pub count : w.written ≡ length s
  pub lines : w.newlines ≡ count_byte 10 s
  pub cut : w.truncated ≡ ltb w.limit (length s)

take_head :
    (n : ℕ) (s p : List ℕ)
    → take n s ++ take (min (n - length (take n s)) (length p)) p ≡ take n (s ++ p)
take_head n s p =
    let e : n - length (take n s) ≡ n - length s = omega (arith, length-take n s) in
    rw (e, take-min (n - length s) p, take-append n s p)

last_short : (n : ℕ) (xs : List ℕ) → length xs ≤ n → last n xs ≡ xs
last_short n xs h = let e : length xs - n ≡ 0 = omega arith in rw e

last_if :
    (n : ℕ) (xs : List ℕ) → (if ltb n (length xs) then drop (length xs - n) xs else xs) ≡ last n xs
last_if n xs = ground (arith, last_short n xs)

store_rear :
    (h t : ℕ) (s p : List ℕ)
    → let head_len = min (h - length (take h s)) (length p) in
      let grown = last t (drop h s) ++ drop head_len p in
      (if ltb head_len (length p)
        then (if ltb t (length grown) then drop (length grown - t) grown else grown)
        else last t (drop h s))
      ≡ last t (drop h (s ++ p))
store_rear h t s p =
    let n = h - length s in
    let e : h - length (take h s) ≡ n = omega (arith, length-take h s) in
    let grown = last t (drop h s) ++ drop n p in
    rw (e, drop-min n p, drop-append h s p)
      (ground (
        arith,
        last_if t grown,
        last-last-append t (drop h s) (drop n p),
        drop_all n p,
        append-nil (drop h s),
      ))

store-Keeps : (w : LimitedWriter) (s p : List ℕ) → Keeps w s → Keeps (store p w) (s ++ p)
unfolding store
store-Keeps w s p k = record {
  head = rw k.head (take_head (head_limit w.limit) s p);
  rear = rw (k.head, k.rear) (store_rear (head_limit w.limit) (w.limit - head_limit w.limit) s p);
  count = omega (arith, k.count, length-append s p);
  lines = rw (k.lines, count_byte-append);
  cut = rw (k.count, length-append);
}

-- Recording and streaming leave what is kept alone.
record Unchanged (v w : LimitedWriter) : Type 0 where
  buf : v.buf ≡ w.buf
  tail : v.tail ≡ w.tail
  limit : v.limit ≡ w.limit
  written : v.written ≡ w.written
  newlines : v.newlines ≡ w.newlines
  truncated : v.truncated ≡ w.truncated

write_full-Unchanged :
    (failed : Option ℕ) (p : List ℕ) (w : LimitedWriter) → Unchanged (write_full failed p w) w
unfolding write_full
write_full-Unchanged failed p w = ground arith

emit_pending-Unchanged : (p : List ℕ) (w : LimitedWriter) → Unchanged (emit_pending p w) w
unfolding emit_pending
emit_pending-Unchanged p w = ground arith

emit_callback-Unchanged : (p : List ℕ) (w : LimitedWriter) → Unchanged (emit_callback p w) w
unfolding emit_callback
emit_callback-Unchanged p w = ground (arith, emit_pending-Unchanged (w.callback_pending ++ p) w)

Keeps-Unchanged : (v w : LimitedWriter) (s : List ℕ) → Unchanged v w → Keeps w s → Keeps v s
Keeps-Unchanged v w s u k = record {
  head = rw (u.buf, u.limit) k.head;
  rear = rw (u.tail, u.limit) k.rear;
  count = u.written ∙ k.count;
  lines = u.newlines ∙ k.lines;
  cut = rw (u.truncated, u.limit) k.cut;
}

-- Every write keeps the record of the stream exact: the head, the tail, the counts and the flag.
pub write-Keeps :
    (failed : Option ℕ) (p : List ℕ) (w : LimitedWriter) (s : List ℕ)
    → Keeps w s
    → Keeps (write failed p w) (s ++ p)
unfolding write
write-Keeps failed p w s k =
    let v = write_full failed p w in
    store-Keeps (emit_callback p v) s p (
      Keeps-Unchanged (emit_callback p v) v s (emit_callback-Unchanged p v)
        (Keeps-Unchanged v w s (write_full-Unchanged failed p w) k))

-- What a sequence of writes has written in all.
abbrev pub stream : List (Option ℕ × List ℕ) → List ℕ
stream [] = []
stream ((failed, p) ∷ ps) = p ++ stream ps

write_all-Keeps :
    (ps : List (Option ℕ × List ℕ)) (w : LimitedWriter) (s : List ℕ)
    → Keeps w s
    → Keeps (write_all ps w) (s ++ stream ps)
unfolding write_all
write_all-Keeps [] w s k = rw append-nil k
write_all-Keeps ((failed, p) ∷ ps) w s k =
    rw (← append_assoc s p (stream ps))
      (write_all-Keeps ps (write failed p w) (s ++ p) (write-Keeps failed p w s k))

write-limit :
    (failed : Option ℕ) (p : List ℕ) (w : LimitedWriter) → (write failed p w).limit ≡ w.limit
unfolding write store
write-limit failed p w =
    (emit_callback-Unchanged p (write_full failed p w)).limit
    ∙ (write_full-Unchanged failed p w).limit

write_all-limit :
    (ps : List (Option ℕ × List ℕ)) (w : LimitedWriter) → (write_all ps w).limit ≡ w.limit
unfolding write_all
write_all-limit [] w = refl
write_all-limit ((failed, p) ∷ ps) w =
    write_all-limit ps (write failed p w) ∙ write-limit failed p w

-- A writer as `Run` makes it, before the first byte.
pub record IsFresh (w : LimitedWriter) : Type 0 where
  pub buf : w.buf ≡ []
  pub tail : w.tail ≡ []
  pub written : w.written ≡ 0
  pub newlines : w.newlines ≡ 0
  pub truncated : w.truncated ≡ false

pub fresh-Keeps : (w : LimitedWriter) → IsFresh w → Keeps w []
unfolding count_byte
fresh-Keeps w f = record {
  head = f.buf ∙ sym (take_all (head_limit w.limit) [] (omega arith));
  rear =
      f.tail
      ∙ sym (
          ap (last (w.limit - head_limit w.limit)) (drop_all (head_limit w.limit) [] (omega arith))
          ∙ drop_all (0 - (w.limit - head_limit w.limit)) [] (omega arith));
  count = f.written;
  lines = f.newlines;
  cut = f.truncated ∙ ground arith;
}

last_of_drop : {A : Type 0} (h t : ℕ) (s : List A) → h + t ≤ length s → last t (drop h s) ≡ last t s
last_of_drop h t s k =
    let e : h + (length (drop h s) - t) ≡ length s - t = omega (arith, length-drop h s) in
    drop-drop (length (drop h s) - t) h s ∙ ap (λ n. drop n s) e

module _ (v : LimitedWriter) (s : List ℕ) (k : Keeps v s) where
  captured_short : length s ≤ v.limit → v.buf ++ v.tail ≡ s
  captured_short h =
      let t = v.limit - head_limit v.limit in
      rw (k.head, k.rear)
        (rw
          (last_short t (drop (head_limit v.limit) s)
            (omega (arith, length-drop (head_limit v.limit) s)))
          (take-append-drop (head_limit v.limit) s))

  captured_long :
      v.limit < length s
      → v.buf ++ v.tail ≡ take (head_limit v.limit) s ++ last (v.limit - head_limit v.limit) s
  captured_long h =
      rw (k.head, k.rear)
        (ap (◌++◌ (take (head_limit v.limit) s))
          (last_of_drop (head_limit v.limit) (v.limit - head_limit v.limit) s (omega arith)))

  length-captured : v.limit < length s → length (v.buf ++ v.tail) ≡ v.limit
  length-captured h =
      let n = head_limit v.limit in
      rw (captured_long h) (
        omega (
          arith,
          length-append (take n s) (last (v.limit - n) s),
          length-take n s,
          length-last (v.limit - n) s,
        ))

-- What is kept of `s`, `v` its flag and counts included, under `limit`.
abbrev pub IsExact : LimitedWriter → List ℕ → ℕ → Type 0
IsExact v s limit =
    let h = head_limit limit in
    (captured v ≡ (if leb (length s) limit then s else take h s ++ last (limit - h) s))
    × (length (captured v) ≡ min limit (length s))
    × (v.truncated ≡ ltb limit (length s))
    × (v.written ≡ length s)
    × (v.newlines ≡ count_byte 10 s)

length-min :
    (v : LimitedWriter) (s : List ℕ) → Keeps v s → length (v.buf ++ v.tail) ≡ min v.limit (length s)
length-min v s k = elim (dec_le (length s) v.limit) [
  | yes h ↦ rw (captured_short v s k h) (omega arith)
  | no h ↦ rw (length-captured v s k (omega arith)) (omega arith)
]

Keeps-IsExact : (v : LimitedWriter) (s : List ℕ) → Keeps v s → IsExact v s v.limit
unfolding captured
Keeps-IsExact v s k = (
  ground (arith, captured_short v s k, captured_long v s k),
  length-min v s k,
  k.cut,
  k.count,
  k.lines,
)

-- Whatever pieces a stream is written in, and whatever the disk does: up to `limit` bytes all of it
-- is kept; of a longer stream the first half of `limit` (rounded up) and the last bytes are kept,
-- `limit` bytes in all. The flag says whether it was longer, and the counts are exact.
pub capture-IsExact :
    (w : LimitedWriter) (ps : List (Option ℕ × List ℕ))
    → IsFresh w
    → IsExact (write_all ps w) (stream ps) w.limit
capture-IsExact w ps f =
    let v = write_all ps w in
    subst (IsExact v (stream ps)) (write_all-limit ps w)
      (Keeps-IsExact v (stream ps) (write_all-Keeps ps w [] (fresh-Keeps w f)))
