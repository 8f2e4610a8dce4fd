-- ===== src/Events/Delivery.antt =====
-- What a subscriber of the bus of internal/events/events.go gets of the events that are published.
use one_ssh.Base.{
  ℕ, ◌≤◌, Bool, true, false, List, [], ◌∷◌, ◌++◌, Option, some, if◌then◌else◌, ltb, ◌==◌, length,
  length-append, ◌≡◌, refl, sym, subst, arith, Bool-cases, inl, inr, append_assoc, append-nil,
}
use one_ssh.Events.{Event, Bus, capacity}
use one_ssh.Events.Views.{Subscription, joined, gone, view, IsLive}
use one_ssh.Events.Calls.{
  Call, publishing, subscribing, leaving, receiving, calls, queue_call, queue_calls, Shows, shows,
}
use one_ssh.Events.Refinement.{calls-refines}

-- One list is what is left of another when some of its elements are dropped.
pub data IsPart {A : Type 0} : List A → List A → Type 0 where
  both_end : IsPart [] []
  take_one : (x : A) (xs ys : List A) → IsPart xs ys → IsPart (x ∷ xs) (x ∷ ys)
  drop_one : (y : A) (xs ys : List A) → IsPart xs ys → IsPart xs (y ∷ ys)

module _ {A : Type 0} where
  IsPart-drop_last : (y : A) (xs ys : List A) → IsPart xs ys → IsPart xs (ys ++ y ∷ [])
  IsPart-drop_last y _ _ both_end = drop_one y [] [] both_end
  IsPart-drop_last y _ _ (take_one x xs ys p) =
      take_one x xs (ys ++ y ∷ []) (IsPart-drop_last y xs ys p)
  IsPart-drop_last y _ _ (drop_one z xs ys p) =
      drop_one z xs (ys ++ y ∷ []) (IsPart-drop_last y xs ys p)

  IsPart-take_last : (y : A) (xs ys : List A) → IsPart xs ys → IsPart (xs ++ y ∷ []) (ys ++ y ∷ [])
  IsPart-take_last y _ _ both_end = take_one y [] [] both_end
  IsPart-take_last y _ _ (take_one x xs ys p) =
      take_one x (xs ++ y ∷ []) (ys ++ y ∷ []) (IsPart-take_last y xs ys p)
  IsPart-take_last y _ _ (drop_one z xs ys p) =
      drop_one z (xs ++ y ∷ []) (ys ++ y ∷ []) (IsPart-take_last y xs ys p)

module _ {D : Type 0} where
  -- The events that a history publishes, in their order.
  pub published : List (Call D) → List (Event D)
  published [] = []
  published (publishing e ∷ cs) = e ∷ published cs
  published (subscribing ∷ cs) = published cs
  published (leaving i ∷ cs) = published cs
  published (receiving i ∷ cs) = published cs

  abbrev pub pending : Subscription D → List (Event D)
  pending (joined p) = p
  pending (gone p) = p

  -- `so_far` has been received, and with what is pending it is a part of all that was published.
  record Progress (so_far all_events : List (Event D)) (s : Subscription D) : Type 0 where
    part : IsPart (so_far ++ pending s) all_events
    room : length (pending s) ≤ capacity

  published_one : Call D → List (Event D)
  published_one (publishing e) = e ∷ []
  published_one subscribing = []
  published_one (leaving i) = []
  published_one (receiving i) = []

  received-Progress :
      (so_far all_events p : List (Event D)) (e : Event D)
      → IsPart (so_far ++ e ∷ p) all_events
      → IsPart ((so_far ++ e ∷ []) ++ p) all_events
  received-Progress so_far all_events p e k =
      subst (λ xs. IsPart xs all_events) (sym (append_assoc so_far (e ∷ []) p)) k

  kept-Progress :
      (so_far all_events : List (Event D)) (s : Subscription D)
      → Progress so_far all_events s
      → Progress (so_far ++ []) (all_events ++ []) s
  kept-Progress so_far all_events s g = rw (append-nil so_far, append-nil all_events) g

  left-Progress :
      (b : Bool) (so_far all_events p : List (Event D))
      → Progress so_far all_events (joined p)
      → Progress so_far all_events (if b then gone p else joined p)
  left-Progress true so_far all_events p g = record { part = g.part; room = g.room }
  left-Progress false so_far all_events p g = g

  publishing-Progress :
      (so_far all_events p : List (Event D)) (e : Event D)
      → Progress so_far all_events (joined p)
      → Progress
          (so_far ++ [])
          (all_events ++ e ∷ [])
          (joined (if ltb (length p) capacity then p ++ e ∷ [] else p))
  publishing-Progress so_far all_events p e g = elim (Bool-cases (ltb (length p) capacity)) [
    | inl k ↦
        rw (append-nil so_far, k)
          (record {
            part =
                subst (λ xs. IsPart xs (all_events ++ e ∷ [])) (append_assoc so_far p (e ∷ []))
                  (IsPart-take_last e (so_far ++ p) all_events g.part);
            room = let l = length-append p (e ∷ []) in ground arith;
          })
    | inr k ↦
        rw (append-nil so_far, k)
          (record { part = IsPart-drop_last e (so_far ++ p) all_events g.part; room = g.room })
  ]

  queue_call-Progress :
      (id : ℕ) (k : Call D) (so_far all_events : List (Event D)) (s : Subscription D)
      → Progress so_far all_events s
      → Progress
          (so_far ++ (queue_call id k s).0)
          (all_events ++ published_one k)
          (queue_call id k s).1
  unfolding queue_call published_one
  queue_call-Progress id (publishing e) so_far all_events (joined p) g =
      publishing-Progress so_far all_events p e g
  queue_call-Progress id (publishing e) so_far all_events (gone p) g =
      rw (append-nil so_far)
        (record { part = IsPart-drop_last e (so_far ++ p) all_events g.part; room = g.room })
  queue_call-Progress id subscribing so_far all_events s g = kept-Progress so_far all_events s g
  queue_call-Progress id (leaving i) so_far all_events (joined p) g =
      kept-Progress so_far all_events (if i == id then gone p else joined p)
        (left-Progress (i == id) so_far all_events p g)
  queue_call-Progress id (leaving i) so_far all_events (gone p) g =
      kept-Progress so_far all_events (gone p) g
  queue_call-Progress id (receiving i) so_far all_events (joined []) g =
      kept-Progress so_far all_events (joined []) g
  queue_call-Progress id (receiving i) so_far all_events (gone []) g =
      kept-Progress so_far all_events (gone []) g
  queue_call-Progress id (receiving i) so_far all_events (joined (e ∷ p)) g =
      elim (Bool-cases (i == id)) [
        | inl k ↦
            rw (k, append-nil all_events)
              (record {
                part = received-Progress so_far all_events p e g.part;
                room = let r = g.room in omega arith;
              })
        | inr k ↦ rw k (kept-Progress so_far all_events (joined (e ∷ p)) g)
      ]
  queue_call-Progress id (receiving i) so_far all_events (gone (e ∷ p)) g =
      elim (Bool-cases (i == id)) [
        | inl k ↦
            rw (k, append-nil all_events)
              (record {
                part = received-Progress so_far all_events p e g.part;
                room = let r = g.room in omega arith;
              })
        | inr k ↦ rw k (kept-Progress so_far all_events (gone (e ∷ p)) g)
      ]

  published_cons :
      (k : Call D) (cs : List (Call D)) → published (k ∷ cs) ≡ published_one k ++ published cs
  unfolding published published_one
  published_cons (publishing e) cs = refl
  published_cons subscribing cs = refl
  published_cons (leaving i) cs = refl
  published_cons (receiving i) cs = refl

  queue_calls-Progress :
      (id : ℕ) (cs : List (Call D)) (so_far all_events : List (Event D)) (s : Subscription D)
      → Progress so_far all_events s
      → Progress
          (so_far ++ (queue_calls id cs s).0)
          (all_events ++ published cs)
          (queue_calls id cs s).1
  unfolding queue_calls published
  queue_calls-Progress id [] so_far all_events s g = kept-Progress so_far all_events s g
  queue_calls-Progress id (k ∷ cs) so_far all_events s g =
      let got = (queue_call id k s).0 in
      let next = (queue_call id k s).1 in
      let rest =
        queue_calls-Progress id cs (so_far ++ got) (all_events ++ published_one k) next
          (queue_call-Progress id k so_far all_events s g) in
      let more = queue_calls id cs next in
      rw (published_cons k cs) (
        subst (λ xs. Progress xs (all_events ++ (published_one k ++ published cs)) more.1)
          (append_assoc so_far got more.0)
          (subst (λ ys. Progress ((so_far ++ got) ++ more.0) ys more.1)
            (append_assoc all_events (published_one k) (published cs)) rest))

  -- What a history of calls gives the subscriber: the bus does not panic, what the subscriber got and
  -- what is pending for it are a part of what was published, and not more is pending than the channel
  -- holds.
  pub data IsDelivered (id : ℕ) (all_events : List (Event D))
      : Option (List (Event D) × Bus D) → Type 0 where
    delivered :
        (got : List (Event D)) (b : Bus D) (s : Subscription D)
        → view id b ≡ some s
        → IsPart (got ++ pending s) all_events
        → length (pending s) ≤ capacity
        → IsDelivered id all_events (some (got, b))

  shown-IsDelivered :
      (id : ℕ) (all_events : List (Event D)) (o : Option (List (Event D) × Bus D))
      (q : List (Event D) × Subscription D)
      → Shows id o q
      → Progress q.0 all_events q.1
      → IsDelivered id all_events o
  shown-IsDelivered id all_events _ _ (shows got b s l v) g = delivered got b s v g.part g.room

  -- From a subscription on, whatever calls are made by anyone, what its subscriber has got and what is
  -- pending for it are events published since, in their order and without repetition, of which some
  -- may be missing; and at most 64 are pending.
  pub calls-IsDelivered :
      (id : ℕ) (cs : List (Call D)) (b : Bus D)
      → IsLive b
      → view id b ≡ some (joined [])
      → IsDelivered id (published cs) (calls id cs b)
  calls-IsDelivered id cs b l v =
      shown-IsDelivered id (published cs) (calls id cs b) (queue_calls id cs (joined []))
        (calls-refines id cs b (joined []) l v)
        (queue_calls-Progress id cs [] [] (joined [])
          (record { part = both_end; room = omega arith }))
