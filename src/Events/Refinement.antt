-- ===== src/Events/Refinement.antt =====
-- The bus of internal/events/events.go as one bounded queue for each subscriber.
use one_ssh.Base.{
  ℕ, true, false, List, [], ◌∷◌, ◌++◌, Option, none, some, if◌then◌else◌, any, ◌==◌, ◌≡◌, refl, sym,
  ap, subst, arith, Bool-cases, inl, inr, Option-cases, List-cases,
}
use one_ssh.Events.{Event, Channel, Bus, publish, subscribe, unsubscribe, receive, received}
use one_ssh.Events.Views.{
  Subscription, find_channel, state_of, view, IsLive, filled, sent, offer_all-sent, sent-IsLive,
  shut, others, close_channel-shut, shut-IsLive, subscribe-IsLive, receive-IsLive,
}
use one_ssh.Events.Calls.{
  Call, publishing, subscribing, leaving, receiving, as_list, call, after, calls, queue_call,
  queue_calls, Shows, shows,
}
use one_ssh.Events.Find.{
  find-sent, find-shut, find-received, got-received, find-agrees, find-given_out,
}

module _ {D : Type 0} where
  Shows-at :
      (id : ℕ) (o : Option (List (Event D) × Bus D)) (q : List (Event D) × Subscription D)
      (got : List (Event D)) (b : Bus D) (s : Subscription D)
      → o ≡ some (got, b)
      → q ≡ (got, s)
      → IsLive b
      → view id b ≡ some s
      → Shows id o q
  Shows-at id o q got b s e k l v = rw (e, k) (shows got b s l v)

  -- The channel behind a view.
  view-channel :
      (id : ℕ) (b : Bus D) (s : Subscription D)
      → view id b ≡ some s
      → (c : Channel D) × (find_channel id b.channels ≡ some c) × (s ≡ state_of c)
  unfolding view
  view-channel id b s v = elim (Option-cases (find_channel id b.channels)) [
    | inl e ↦ absurd (ground arith)
    | inr (c, e) ↦ (c, e, ground arith)
  ]

  channel-view :
      (id : ℕ) (b : Bus D) (c : Channel D)
      → find_channel id b.channels ≡ some c
      → view id b ≡ some (state_of c)
  unfolding view
  channel-view id b c e = ground arith

  publishing-Shows :
      (id : ℕ) (e : Event D) (b : Bus D) (c : Channel D)
      → IsLive b
      → find_channel id b.channels ≡ some c
      → Shows id (call id (publishing e) b) (queue_call id (publishing e) (state_of c))
  unfolding call publish queue_call
  publishing-Shows id e b c l h =
      let next = record b { channels = sent e b.subs b.channels } in
      let o = offer_all-sent e b.subs b.channels l.agree in
      let a = find-agrees id b.subs b.channels c h l.agree in
      let to = if any (λ s. s == id) b.subs then filled e c else c in
      Shows-at id _ _ [] next (state_of to) (ground arith) (ground arith) (sent-IsLive e b l)
        (channel-view id next to (find-sent id e b.subs b.channels c h))

  leaving-Shows :
      (id i : ℕ) (b : Bus D) (c : Channel D)
      → IsLive b
      → find_channel id b.channels ≡ some c
      → Shows id (call id (leaving i) b) (queue_call id (leaving i) (state_of c))
  unfolding call unsubscribe queue_call
  leaving-Shows id i b c l h = elim (Bool-cases (any (λ s. s == i) b.subs)) [
    | inl k ↦
        let next = record b { subs = others i b.subs; channels = shut i b.channels } in
        let o = close_channel-shut i b.subs b.channels k l.agree in
        let to = if i == id then record c { is_closed = true } else c in
        Shows-at id _ _ [] next (state_of to) (ground arith) (ground arith) (shut-IsLive i b l)
          (channel-view id next to (find-shut id i b.channels c h))
    | inr k ↦
        let a = find-agrees id b.subs b.channels c h l.agree in
        let same : (i == id) ≡ true → any (λ s. s == id) b.subs ≡ false =
          λ e. let j : i ≡ id = ground arith in subst (λ j. any (λ s. s == j) b.subs ≡ false) j k in
        Shows-at id _ _ [] b (state_of c) (ground arith) (ground arith) l (channel-view id b c h)
  ]

  queue_receiving :
      (id i : ℕ) (c : Channel D)
      → queue_call id (receiving i) (state_of c) ≡ (
        if i == id then as_list (received c).0 else [],
        state_of (if i == id then (received c).1 else c),
      )
  unfolding queue_call
  queue_receiving id i c = elim (Bool-cases c.is_closed) [
    | inl k ↦ elim (List-cases c.buffer) [ inl e ↦ ground arith | inr (x, xs, e) ↦ ground arith ]
    | inr k ↦ elim (List-cases c.buffer) [ inl e ↦ ground arith | inr (x, xs, e) ↦ ground arith ]
  ]

  got-receiving :
      (id i : ℕ) (b : Bus D) (c : Channel D)
      → find_channel id b.channels ≡ some c
      → (if i == id then as_list (receive i b).0 else [])
        ≡ (if i == id then as_list (received c).0 else [])
  unfolding receive
  got-receiving id i b c h = elim (Bool-cases (i == id)) [
    | inl k ↦
        let same : id ≡ i = ground arith in
        let r =
          got-received i b.channels c (subst (λ j. find_channel j b.channels ≡ some c) same h) in
        ap (λ x. if i == id then as_list x else []) r
    | inr k ↦ rw k refl
  ]

  receiving-Shows :
      (id i : ℕ) (b : Bus D) (c : Channel D)
      → IsLive b
      → find_channel id b.channels ≡ some c
      → Shows id (call id (receiving i) b) (queue_call id (receiving i) (state_of c))
  unfolding call receive queue_call
  receiving-Shows id i b c l h =
      let to = if i == id then (received c).1 else c in
      let r = got-receiving id i b c h in
      let got = if i == id then as_list (received c).0 else [] in
      Shows-at id _ _ got (receive i b).1 (state_of to) (ap (λ x. some (x, (receive i b).1)) r)
        (queue_receiving id i c) (receive-IsLive i b l)
        (channel-view id (receive i b).1 to (find-received id i b.channels c h))

  subscribing-Shows :
      (id : ℕ) (b : Bus D) (c : Channel D)
      → IsLive b
      → find_channel id b.channels ≡ some c
      → Shows id (call id subscribing b) (queue_call id subscribing (state_of c))
  unfolding call subscribe queue_call find_channel
  subscribing-Shows id b c l h =
      let below = find-given_out id b.next b.channels c h l.given_out in
      Shows-at id _ _ [] (subscribe b).1 (state_of c) refl refl (subscribe-IsLive b l)
        (channel-view id (subscribe b).1 c (ground arith))

  channel-Shows :
      (id : ℕ) (k : Call D) (b : Bus D) (c : Channel D)
      → IsLive b
      → find_channel id b.channels ≡ some c
      → Shows id (call id k b) (queue_call id k (state_of c))
  channel-Shows id (publishing e) b c l h = publishing-Shows id e b c l h
  channel-Shows id subscribing b c l h = subscribing-Shows id b c l h
  channel-Shows id (leaving i) b c l h = leaving-Shows id i b c l h
  channel-Shows id (receiving i) b c l h = receiving-Shows id i b c l h

  call-Shows :
      (id : ℕ) (k : Call D) (b : Bus D) (s : Subscription D)
      → IsLive b
      → view id b ≡ some s
      → Shows id (call id k b) (queue_call id k s)
  call-Shows id k b s l v =
      let (c, h, same) = view-channel id b s v in
      subst (λ x. Shows id (call id k b) (queue_call id k x)) (sym same)
        (channel-Shows id k b c l h)

  after-Shows :
      (id : ℕ) (got : List (Event D)) (o : Option (List (Event D) × Bus D))
      (q : List (Event D) × Subscription D)
      → Shows id o q
      → Shows id (after got o) (let (more, last) = q in (got ++ more, last))
  after-Shows id got _ _ (shows more b s l v) = shows (got ++ more) b s l v

  then-Shows :
      (id : ℕ) (cs : List (Call D)) (o : Option (List (Event D) × Bus D))
      (q : List (Event D) × Subscription D)
      → ((b : Bus D) (s : Subscription D)
          → IsLive b
          → view id b ≡ some s
          → Shows id (calls id cs b) (queue_calls id cs s))
      → Shows id o q
      → Shows id
          (elim o [ none ↦ none | some (got, next) ↦ after got (calls id cs next) ])
          (let (got, next) = q in let (more, last) = queue_calls id cs next in (got ++ more, last))
  then-Shows id cs _ _ rest (shows got b s l v) = after-Shows id got _ _ (rest b s l v)

  -- The bus refines one queue for each subscriber: whatever calls are made, by anyone and in any
  -- order, the bus does not panic, and a subscriber gets, and has still pending, what the calls make
  -- of its own queue alone.
  pub calls-refines :
      (id : ℕ) (cs : List (Call D)) (b : Bus D) (s : Subscription D)
      → IsLive b
      → view id b ≡ some s
      → Shows id (calls id cs b) (queue_calls id cs s)
  unfolding calls queue_calls
  calls-refines id [] b s l v = shows [] b s l v
  calls-refines id (k ∷ cs) b s l v =
      then-Shows id cs (call id k b) (queue_call id k s) (calls-refines id cs)
        (call-Shows id k b s l v)
