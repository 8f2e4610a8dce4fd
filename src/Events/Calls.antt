-- ===== src/Events/Calls.antt =====
-- Histories of calls on the bus of internal/events/events.go, and on the queue of one subscriber.
use one_ssh.Base.{ℕ, List, [], ◌∷◌, ◌++◌, Option, none, some, if◌then◌else◌, ltb, ◌==◌, length, ◌≡◌}
use one_ssh.Events.{
  Event, Bus, capacity, Received, event, nothing_yet, ended, publish, subscribe, unsubscribe,
  receive,
}
use one_ssh.Events.Views.{Subscription, joined, gone, view, IsLive}

-- A call on the bus, by anyone.
pub data Call (D : Type 0) : Type 0 where
  publishing : Event D → Call D
  subscribing : Call D
  leaving receiving : ℕ → Call D

module _ {D : Type 0} where
  abbrev pub as_list : Received D → List (Event D)
  as_list (event e) = e ∷ []
  as_list nothing_yet = []
  as_list ended = []

  -- The bus after a call, and what the subscriber `id` gets from it.
  unfoldable pub call : ℕ → Call D → Bus D → Option (List (Event D) × Bus D)
  unfolding publish subscribe unsubscribe receive
  call id (publishing e) b = elim (publish e b) [ none ↦ none | some c ↦ some ([], c) ]
  call id subscribing b = some ([], (subscribe b).1)
  call id (leaving i) b = elim (unsubscribe i b) [ none ↦ none | some c ↦ some ([], c) ]
  call id (receiving i) b = some (if i == id then as_list (receive i b).0 else [], (receive i b).1)

  abbrev pub after :
      List (Event D) → Option (List (Event D) × Bus D) → Option (List (Event D) × Bus D)
  after got none = none
  after got (some (more, b)) = some (got ++ more, b)

  -- A history of calls, with all that the subscriber `id` gets. `none` is a panic.
  unfoldable pub calls : ℕ → List (Call D) → Bus D → Option (List (Event D) × Bus D)
  unfolding call
  calls id [] b = some ([], b)
  calls id (c ∷ cs) b = elim (call id c b) [
    | none ↦ none
    | some (got, next) ↦ after got (calls id cs next)
  ]

  -- The same on a subscription alone, which no other subscriber bears on.
  unfoldable pub queue_call : ℕ → Call D → Subscription D → List (Event D) × Subscription D
  queue_call id (publishing e) (joined p) =
      ([], joined (if ltb (length p) capacity then p ++ e ∷ [] else p))
  queue_call id (publishing e) (gone p) = ([], gone p)
  queue_call id subscribing s = ([], s)
  queue_call id (leaving i) (joined p) = ([], if i == id then gone p else joined p)
  queue_call id (leaving i) (gone p) = ([], gone p)
  queue_call id (receiving i) (joined []) = ([], joined [])
  queue_call id (receiving i) (gone []) = ([], gone [])
  queue_call id (receiving i) (joined (e ∷ p)) =
      if i == id then (e ∷ [], joined p) else ([], joined (e ∷ p))
  queue_call id (receiving i) (gone (e ∷ p)) =
      if i == id then (e ∷ [], gone p) else ([], gone (e ∷ p))

  unfoldable pub queue_calls : ℕ → List (Call D) → Subscription D → List (Event D) × Subscription D
  unfolding queue_call
  queue_calls id [] s = ([], s)
  queue_calls id (c ∷ cs) s =
      let (got, next) = queue_call id c s in
      let (more, last) = queue_calls id cs next in (got ++ more, last)

  -- A result of the bus that shows the subscriber `id` what its queue shows.
  pub data Shows (id : ℕ)
      : Option (List (Event D) × Bus D) → List (Event D) × Subscription D → Type 0 where
    shows :
        (got : List (Event D)) (b : Bus D) (s : Subscription D)
        → IsLive b
        → view id b ≡ some s
        → Shows id (some (got, b)) (got, s)
