-- ===== src/Execx/Writer/Streams.antt =====
-- What the callback of `limitedWriter` has been handed so far, in internal/execx/runner.go.
use one_ssh.Base.{
  ℕ, zero, suc, ◌-◌, ◌≤◌, ◌<◌, min, true, false, List, [], ◌∷◌, ◌++◌, none, some, length, take,
  drop, ◌≡◌, refl, sym, ap, subst, ◌∙◌, ◌⊎◌, inl, inr, arith, length-take, length-drop,
  length-append, append_assoc, take-append-drop, lt→ltb, le→ltb, Option-cases,
}
use one_ssh.Execx.Bytes.{
  index_of, occurs, before, occurs-append, before-append, IsLate, occurs_later, index_of-none,
  index_of-some,
}
use one_ssh.Execx.Writer.{
  LimitedWriter, emit_callback, emit_pending, emit_step, chunks, chunks_from, callback_chunks,
  marker_of,
}

abbrev pub concat : List (List ℕ) → List ℕ
concat [] = []
concat (x ∷ xs) = x ++ concat xs

concat-append : (xs ys : List (List ℕ)) → concat (xs ++ ys) ≡ concat xs ++ concat ys
concat-append [] ys = refl
concat-append (x ∷ xs) ys = rw (concat-append xs ys) (sym (append_assoc x (concat xs) (concat ys)))

concat-chunks_from :
    (rounds : ℕ) (s : List ℕ) → length s ≤ rounds → concat (chunks_from rounds s) ≡ s
unfolding chunks_from
concat-chunks_from zero [] h = refl
concat-chunks_from zero (c ∷ s) h = absurd (omega arith)
concat-chunks_from (suc rounds) [] h = refl
concat-chunks_from (suc rounds) (c ∷ s) h =
    let n = min (length (c ∷ s)) 4096 in
    rw (concat-chunks_from rounds (drop n (c ∷ s)) (omega (arith, length-drop n (c ∷ s))))
      (take-append-drop n (c ∷ s))

-- Each chunk that the callback is given is not empty and has at most 4096 bytes.
abbrev pub AreChunks : List (List ℕ) → Type 0
AreChunks [] = Unit {0}
AreChunks (x ∷ xs) = (0 < length x) × (length x ≤ 4096) × AreChunks xs

chunks_from-AreChunks : (rounds : ℕ) (s : List ℕ) → AreChunks (chunks_from rounds s)
unfolding chunks_from
chunks_from-AreChunks zero s = tt
chunks_from-AreChunks (suc rounds) [] = tt
chunks_from-AreChunks (suc rounds) (c ∷ s) =
    let n = min (length (c ∷ s)) 4096 in
    (
      omega (arith, length-take n (c ∷ s)),
      omega (arith, length-take n (c ∷ s)),
      chunks_from-AreChunks rounds (drop n (c ∷ s)),
    )

concat-chunks : (s : List ℕ) → concat (chunks s) ≡ s
unfolding chunks
concat-chunks s = concat-chunks_from (length s) s (omega arith)

-- What has been handed over, of a stream `s`, by a writer that strips the trailer `m`.
pub data Streams (m : List ℕ) (w : LimitedWriter) (s : List ℕ) : Type 0 where
  open_stream :
      w.callback_stopped ≡ false
      → occurs m s ≡ false
      → concat w.calls ++ w.callback_pending ≡ s
      → IsLate m (concat w.calls) w.callback_pending
      → Streams m w s
  stopped :
      w.callback_stopped ≡ true → occurs m s ≡ true → concat w.calls ≡ before m s → Streams m w s

pub concat-calls :
    (s : List ℕ) (w : LimitedWriter) → concat (callback_chunks s w).calls ≡ concat w.calls ++ s
unfolding callback_chunks
concat-calls s w = concat-append w.calls (chunks s) ∙ ap (◌++◌ (concat w.calls)) (concat-chunks s)

-- One call of `emitCallback` on a stream that is still open, `o` being where the marker was found.
module _ (m : List ℕ) (w : LimitedWriter) (s p : List ℕ) (go : w.callback_stopped ≡ false)
    (o : occurs m s ≡ false) (e : concat w.calls ++ w.callback_pending ≡ s)
    (l : IsLate m (concat w.calls) w.callback_pending) where
  grown : concat w.calls ++ (w.callback_pending ++ p) ≡ s ++ p
  grown = sym (append_assoc (concat w.calls) w.callback_pending p) ∙ ap (λ t. t ++ p) e

  later :
      (occurs m (s ++ p) ≡ occurs m (w.callback_pending ++ p))
      × (before m (s ++ p) ≡ concat w.calls ++ before m (w.callback_pending ++ p))
  later = rw (← e) (occurs_later m (concat w.calls) w.callback_pending p (rw e o) l)

  step_found :
      (i : ℕ)
      → index_of m (w.callback_pending ++ p) ≡ some i
      → Streams m (emit_step (some i) (length m - 1) (w.callback_pending ++ p) w) (s ++ p)
  unfolding emit_step
  step_found i f =
      let (there, cut) = index_of-some m (w.callback_pending ++ p) i f in
      stopped refl (later.0 ∙ there)
        (concat-calls (take i (w.callback_pending ++ p)) w ∙ sym (rw (later.1, cut)))

  step_kept :
      (length m - 1 < length (w.callback_pending ++ p))
        ⊎ (length (w.callback_pending ++ p) ≤ length m - 1)
      → index_of m (w.callback_pending ++ p) ≡ none
      → Streams m (emit_step none (length m - 1) (w.callback_pending ++ p) w) (s ++ p)
  unfolding emit_step
  step_kept (inl h) f =
      let q = w.callback_pending ++ p in
      let n = length q - (length m - 1) in
      rw (lt→ltb (length m - 1) (length q) h) (
        open_stream go (later.0 ∙ (index_of-none m q f).0)
          (ap (λ t. t ++ drop n q) (concat-calls (take n q) w)
            ∙ append_assoc (concat w.calls) (take n q) (drop n q)
            ∙ ap (◌++◌ (concat w.calls)) (take-append-drop n q)
            ∙ grown)
          (inr (omega (arith, length-drop n q))))
  step_kept (inr h) f =
      let q = w.callback_pending ++ p in
      rw (le→ltb (length m - 1) (length q) h)
        (open_stream go (later.0 ∙ (index_of-none m q f).0) grown (still_late l))
    where
      still_late :
          IsLate m (concat w.calls) w.callback_pending
          → IsLate m (concat w.calls) (w.callback_pending ++ p)
      still_late (inl k) = inl k
      still_late (inr k) = inr (omega (arith, length-append w.callback_pending p))

  step-Streams : marker_of w ≡ m → Streams m (emit_pending (w.callback_pending ++ p) w) (s ++ p)
  unfolding emit_pending
  step-Streams em =
      let q = w.callback_pending ++ p in
      rw em (elim (Option-cases (index_of m q)) [
        | inl f ↦ rw f (step_kept (split (length m - 1) (length q)) f)
        | inr (i, f) ↦ rw f (step_found i f)
      ])
    where
      split : (a b : ℕ) → (a < b) ⊎ (b ≤ a)
      split a b = ground arith

-- A stdout writer of `Run`: it has a callback and strips the trailer that starts with `m`.
pub record IsStripping (m : List ℕ) (w : LimitedWriter) : Type 0 where
  pub has_callback : w.has_callback ≡ true
  pub strip_trailer : w.strip_trailer ≡ true
  pub marker : marker_of w ≡ m

pub emit_callback-open :
    (m : List ℕ) (w : LimitedWriter) (p : List ℕ)
    → IsStripping m w
    → w.callback_stopped ≡ false
    → emit_callback p w ≡ emit_pending (w.callback_pending ++ p) w
unfolding emit_callback
emit_callback-open m w p k go = ground arith

pub emit_callback-stopped :
    (m : List ℕ) (w : LimitedWriter) (p : List ℕ)
    → IsStripping m w
    → w.callback_stopped ≡ true
    → emit_callback p w ≡ w
unfolding emit_callback
emit_callback-stopped m w p k st = ground arith

pub emit_callback-Streams :
    (m : List ℕ) (w : LimitedWriter) (s p : List ℕ)
    → IsStripping m w
    → Streams m w s
    → Streams m (emit_callback p w) (s ++ p)
emit_callback-Streams m w s p k (open_stream go o e l) =
    subst (λ v. Streams m v (s ++ p)) (sym (emit_callback-open m w p k go))
      (step-Streams m w s p go o e l k.marker)
emit_callback-Streams m w s p k (stopped st o c) =
    subst (λ v. Streams m v (s ++ p)) (sym (emit_callback-stopped m w p k st))
      (stopped st (occurs-append m s p o) (c ∙ sym (before-append m s p o)))

-- Recording and capturing leave the callback's part of the writer alone.
pub record SameCallback (v w : LimitedWriter) : Type 0 where
  pub calls : v.calls ≡ w.calls
  pub pending : v.callback_pending ≡ w.callback_pending
  pub is_stopped : v.callback_stopped ≡ w.callback_stopped
  pub has_callback : v.has_callback ≡ w.has_callback
  pub strip_trailer : v.strip_trailer ≡ w.strip_trailer
  pub trailer_marker : v.trailer_marker ≡ w.trailer_marker

pub Streams-SameCallback :
    (m : List ℕ) (v w : LimitedWriter) (s : List ℕ)
    → SameCallback v w
    → Streams m w s
    → Streams m v s
Streams-SameCallback m v w s c (open_stream go o e l) =
    open_stream (c.is_stopped ∙ go) o (rw (c.calls, c.pending) e) (rw (c.calls, c.pending) l)
Streams-SameCallback m v w s c (stopped st o e) = stopped (c.is_stopped ∙ st) o (rw c.calls e)

pub IsStripping-SameCallback :
    (m : List ℕ) (v w : LimitedWriter) → SameCallback v w → IsStripping m w → IsStripping m v
unfolding marker_of
IsStripping-SameCallback m v w c k = record {
  has_callback = c.has_callback ∙ k.has_callback;
  strip_trailer = c.strip_trailer ∙ k.strip_trailer;
  marker = rw c.trailer_marker k.marker;
}
