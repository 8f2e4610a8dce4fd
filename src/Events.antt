-- ===== src/Events.antt =====
-- internal/events/events.go: the bus of events, its subscribers and their channels. A send on a
-- closed channel, and a second close of one, are panics of Go, and `none` here.
pub mod Views
pub mod Calls
pub mod Find
pub mod Refinement
pub mod Delivery
use one_ssh.Base.{
  ℕ, ◌+◌, String, Bool, true, false, List, [], ◌∷◌, ◌++◌, Option, none, some, if◌then◌else◌, any,
  keep, ltb, ◌==◌, length,
}

pub record Event (D : Type 0) : Type 0 where
  pub kind : String
  pub ts : ℕ
  pub data_of : D

-- A channel with room for `capacity` events.
pub record Channel (D : Type 0) : Type 0 where
  pub buffer : List (Event D)
  pub is_closed : Bool

-- `Bus`, with the channels that were made, each under the number of its subscriber: a subscriber
-- that has left still holds its channel.
pub record Bus (D : Type 0) : Type 0 where
  pub next : ℕ
  pub subs : List ℕ
  pub channels : List (ℕ × Channel D)

abbrev pub capacity : ℕ
capacity = 64

-- What a subscriber gets from its channel.
pub data Received (D : Type 0) : Type 0 where
  event : Event D → Received D
  nothing_yet : Received D
  ended : Received D

module _ {D : Type 0} where
  -- `New`.
  abbrev pub new_bus : Bus D
  new_bus = record { next = 0; subs = []; channels = [] }

  -- The `select` with a `default`: an event is dropped where the buffer is full.
  unfoldable pub offer : Event D → Channel D → Option (Channel D)
  offer e c =
      if c.is_closed
      then none
      else if ltb (length c.buffer) capacity
      then some (record c { buffer = c.buffer ++ e ∷ [] })
      else some c

  abbrev with_channel :
      ℕ → Option (Channel D) → Option (List (ℕ × Channel D)) → Option (List (ℕ × Channel D))
  with_channel id none rest = none
  with_channel id (some c) none = none
  with_channel id (some c) (some cs) = some ((id, c) ∷ cs)

  -- The loop of `Publish` over the subscribers.
  unfoldable pub offer_all : Event D → List ℕ → List (ℕ × Channel D) → Option (List (ℕ × Channel D))
  unfolding offer
  offer_all e subs [] = some []
  offer_all e subs ((id, c) ∷ cs) =
      with_channel id (if any (λ s. s == id) subs then offer e c else some c) (offer_all e subs cs)

  abbrev with_channels : Bus D → Option (List (ℕ × Channel D)) → Option (Bus D)
  with_channels b none = none
  with_channels b (some cs) = some (record b { channels = cs })

  -- `Publish`.
  unfoldable pub publish : Event D → Bus D → Option (Bus D)
  unfolding offer_all
  publish e b = with_channels b (offer_all e b.subs b.channels)

  -- `Subscribe`, with the subscriber's number.
  unfoldable pub subscribe : Bus D → ℕ × Bus D
  subscribe b = (
    b.next,
    record {
      next = b.next + 1;
      subs = b.next ∷ b.subs;
      channels = (b.next, record { buffer = []; is_closed = false }) ∷ b.channels;
    },
  )

  unfoldable pub close_channel : ℕ → List (ℕ × Channel D) → Option (List (ℕ × Channel D))
  close_channel id [] = some []
  close_channel id ((key, c) ∷ cs) =
      with_channel key
        (if key == id
          then (if c.is_closed then none else some (record c { is_closed = true }))
          else some c)
        (close_channel id cs)

  -- The function that `Subscribe` returns; a second call does nothing.
  unfoldable pub unsubscribe : ℕ → Bus D → Option (Bus D)
  unfolding close_channel
  unsubscribe id b =
      if any (λ s. s == id) b.subs
      then with_channels (record b { subs = keep (λ s. (if s == id then false else true)) b.subs })
          (close_channel id b.channels)
      else some b

  abbrev pub received : Channel D → Received D × Channel D
  received c = elim c.buffer [
    | [] ↦ (if c.is_closed then ended else nothing_yet, c)
    | e ∷ es ↦ (event e, record c { buffer = es })
  ]

  unfoldable pub receive_from : ℕ → List (ℕ × Channel D) → Received D × List (ℕ × Channel D)
  receive_from id [] = (nothing_yet, [])
  receive_from id ((key, c) ∷ cs) =
      let (out, rest) = receive_from id cs in
      if key == id then ((received c).0, (key, (received c).1) ∷ cs) else (out, (key, c) ∷ rest)

  -- A receive of the subscriber `id`, which waits on `nothing_yet`.
  unfoldable pub receive : ℕ → Bus D → Received D × Bus D
  unfolding receive_from
  receive id b = let (out, cs) = receive_from id b.channels in (out, record b { channels = cs })
