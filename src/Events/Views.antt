-- ===== src/Events/Views.antt =====
-- Each subscriber's own view of the bus of internal/events/events.go, and the bus after each call.
use one_ssh.Base.{
  ℕ, ◌+◌, Bool, true, false, not, List, [], ◌∷◌, ◌++◌, Option, none, some, if◌then◌else◌, any, all,
  keep, ltb, ◌==◌, length, ◌≡◌, refl, arith, Bool-cases, inl, inr, ap, subst, sym,
}
use one_ssh.Events.{
  Event, Channel, Bus, capacity, offer, offer_all, subscribe, close_channel, received, receive_from,
  receive,
}

-- What a subscription is on its own: a queue of pending events that takes no more than `capacity`,
-- or what is still pending of one that has been left.
pub data Subscription (D : Type 0) : Type 0 where
  joined gone : List (Event D) → Subscription D

abbrev pub others : ℕ → List ℕ → List ℕ
others id subs = keep (λ s. if s == id then false else true) subs

any-others :
    (id key : ℕ) (subs : List ℕ)
    → any (λ s. s == key) (others id subs) ≡ (if key == id then false else any (λ s. s == key) subs)
any-others id key [] = ground arith
any-others id key (s ∷ subs) = ground (arith, any-others id key subs)

module _ {D : Type 0} where
  unfoldable pub find_channel : ℕ → List (ℕ × Channel D) → Option (Channel D)
  find_channel id [] = none
  find_channel id ((key, c) ∷ cs) = if key == id then some c else find_channel id cs

  abbrev pub state_of : Channel D → Subscription D
  state_of c = if c.is_closed then gone c.buffer else joined c.buffer

  -- The subscription of a number, which the bus must have given out.
  unfoldable pub view : ℕ → Bus D → Option (Subscription D)
  unfolding find_channel
  view id b = elim (find_channel id b.channels) [ none ↦ none | some c ↦ some (state_of c) ]

  abbrev pub agrees : List ℕ → ℕ × Channel D → Bool
  agrees subs p = if any (λ s. s == p.0) subs then not p.1.is_closed else p.1.is_closed

  -- The channels are those of numbers given out so far, and the open ones are those of the subscribers.
  pub record IsLive (b : Bus D) : Type 0 where
    pub given_out : all (λ p. ltb p.0 b.next) b.channels ≡ true
    pub agree : all (agrees b.subs) b.channels ≡ true

  -- The channels after a send to all subscribers.
  abbrev pub filled : Event D → Channel D → Channel D
  filled e c =
      if ltb (length c.buffer) capacity then record c { buffer = c.buffer ++ e ∷ [] } else c

  unfoldable pub sent : Event D → List ℕ → List (ℕ × Channel D) → List (ℕ × Channel D)
  sent e subs [] = []
  sent e subs ((id, c) ∷ cs) =
      (id, if any (λ s. s == id) subs then filled e c else c) ∷ sent e subs cs

  pub offer_all-sent :
      (e : Event D) (subs : List ℕ) (cs : List (ℕ × Channel D))
      → all (agrees subs) cs ≡ true
      → offer_all e subs cs ≡ some (sent e subs cs)
  unfolding offer_all sent offer
  offer_all-sent e subs [] a = refl
  offer_all-sent e subs ((id, c) ∷ cs) a =
      let r = offer_all-sent e subs cs in
      elim (Bool-cases (any (λ s. s == id) subs)) [
        | inl k ↦ elim (Bool-cases (ltb (length c.buffer) capacity)) [
          | inl l ↦ ground arith
          | inr l ↦ ground arith
        ]
        | inr k ↦ ground arith
      ]

  sent-agrees :
      (e : Event D) (subs : List ℕ) (cs : List (ℕ × Channel D))
      → all (agrees subs) cs ≡ true
      → all (agrees subs) (sent e subs cs) ≡ true
  unfolding sent
  sent-agrees e subs [] a = refl
  sent-agrees e subs ((id, c) ∷ cs) a =
      let r = sent-agrees e subs cs in
      elim (Bool-cases (any (λ s. s == id) subs)) [
        | inl k ↦ elim (Bool-cases (ltb (length c.buffer) capacity)) [
          | inl l ↦ ground arith
          | inr l ↦ ground arith
        ]
        | inr k ↦ ground arith
      ]

  sent-given_out :
      (e : Event D) (subs : List ℕ) (n : ℕ) (cs : List (ℕ × Channel D))
      → all (λ p. ltb p.0 n) cs ≡ true
      → all (λ p. ltb p.0 n) (sent e subs cs) ≡ true
  unfolding sent
  sent-given_out e subs n [] a = refl
  sent-given_out e subs n ((id, c) ∷ cs) a = ground (arith, sent-given_out e subs n cs)

  pub sent-IsLive :
      (e : Event D) (b : Bus D)
      → IsLive b
      → IsLive (record b { channels = sent e b.subs b.channels })
  sent-IsLive e b l = record {
    given_out = sent-given_out e b.subs b.next b.channels l.given_out;
    agree = sent-agrees e b.subs b.channels l.agree;
  }

  -- The channels after the subscriber `id` has left.
  unfoldable pub shut : ℕ → List (ℕ × Channel D) → List (ℕ × Channel D)
  shut id [] = []
  shut id ((key, c) ∷ cs) =
      (key, if key == id then record c { is_closed = true } else c) ∷ shut id cs

  pub close_channel-shut :
      (id : ℕ) (subs : List ℕ) (cs : List (ℕ × Channel D))
      → any (λ s. s == id) subs ≡ true
      → all (agrees subs) cs ≡ true
      → close_channel id cs ≡ some (shut id cs)
  unfolding close_channel shut
  close_channel-shut id subs [] k a = refl
  close_channel-shut id subs ((key, c) ∷ cs) k a =
      let r = close_channel-shut id subs cs k in
      elim (Bool-cases (key == id)) [
        | inl e ↦
            let same : key ≡ id = ground arith in
            let on : any (λ s. s == key) subs ≡ true =
              subst (λ i. any (λ s. s == i) subs ≡ true) (sym same) k in
            ground arith
        | inr e ↦ ground arith
      ]

  shut-agrees :
      (id : ℕ) (subs : List ℕ) (cs : List (ℕ × Channel D))
      → all (agrees subs) cs ≡ true
      → all (agrees (others id subs)) (shut id cs) ≡ true
  unfolding shut
  shut-agrees id subs [] a = refl
  shut-agrees id subs ((key, c) ∷ cs) a =
      ground (arith, shut-agrees id subs cs, any-others id key subs)

  shut-given_out :
      (id n : ℕ) (cs : List (ℕ × Channel D))
      → all (λ p. ltb p.0 n) cs ≡ true
      → all (λ p. ltb p.0 n) (shut id cs) ≡ true
  unfolding shut
  shut-given_out id n [] a = refl
  shut-given_out id n ((key, c) ∷ cs) a = ground (arith, shut-given_out id n cs)

  pub shut-IsLive :
      (id : ℕ) (b : Bus D)
      → IsLive b
      → IsLive (record b { subs = others id b.subs; channels = shut id b.channels })
  shut-IsLive id b l = record {
    given_out = shut-given_out id b.next b.channels l.given_out;
    agree = shut-agrees id b.subs b.channels l.agree;
  }

  raised :
      (n : ℕ) (subs : List ℕ) (cs : List (ℕ × Channel D))
      → all (λ p. ltb p.0 n) cs ≡ true
      → all (agrees subs) cs ≡ true
      → (all (λ p. ltb p.0 (n + 1)) cs ≡ true) × (all (agrees (n ∷ subs)) cs ≡ true)
  raised n subs [] a g = (refl, refl)
  raised n subs ((key, c) ∷ cs) a g =
      let (r, q) = raised n subs cs (ground arith) (ground arith) in (ground arith, ground arith)

  pub subscribe-IsLive : (b : Bus D) → IsLive b → IsLive (subscribe b).1
  unfolding subscribe
  subscribe-IsLive b l =
      let (r, q) = raised b.next b.subs b.channels l.given_out l.agree in
      record { given_out = ground arith; agree = ground arith }

  received-all :
      (p : ℕ × Channel D → Bool) (id : ℕ) (cs : List (ℕ × Channel D))
      → ((key : ℕ) (c : Channel D) → p (key, (received c).1) ≡ p (key, c))
      → all p cs ≡ true
      → all p (receive_from id cs).1 ≡ true
  unfolding receive_from
  received-all p id [] h a = refl
  received-all p id ((key, c) ∷ cs) h a =
      let k = h key c in let r = received-all p id cs h in ground arith

  received-closed : (c : Channel D) → (received c).1.is_closed ≡ c.is_closed
  received-closed c = ground arith

  pub receive-IsLive : (id : ℕ) (b : Bus D) → IsLive b → IsLive (receive id b).1
  unfolding receive
  receive-IsLive id b l = record {
    given_out = received-all (λ p. ltb p.0 b.next) id b.channels (λ key c. refl) l.given_out;
    agree =
        received-all (agrees b.subs) id b.channels
          (λ key c.
            let k = received-closed c in
            ap (λ z. if any (λ s. s == key) b.subs then not z else z) k)
          l.agree;
  }
