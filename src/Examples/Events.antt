-- ===== src/Examples/Events.antt =====
-- internal/events/events.go at concrete inputs.
use one_ssh.Base.{ℕ, true, false, ◌≡◌, refl, [], ◌∷◌, some}
use one_ssh.Events.{Event, Bus, new_bus, subscribe}
use one_ssh.Events.Views.{joined, view, IsLive}
use one_ssh.Events.Calls.{publishing, leaving, receiving, calls, queue_calls, Shows}
use one_ssh.Events.Refinement.{calls-refines}
use one_ssh.Events.Delivery.{IsDelivered, published, calls-IsDelivered}

abbrev started : Event ℕ
started = record { kind = "job_status"; ts = 1; data_of = 7 }

abbrev finished : Event ℕ
finished = record { kind = "command_finished"; ts = 2; data_of = 8 }

-- A bus with the subscribers 0 and 1.
abbrev bus : Bus ℕ
bus = record {
  next = 2;
  subs = 1 ∷ 0 ∷ [];
  channels =
      (1, record { buffer = []; is_closed = false })
      ∷ (0, record { buffer = []; is_closed = false })
      ∷ [];
}

two_subscribed : (subscribe (subscribe (new_bus {D = ℕ})).1).1 ≡ bus
unfolding subscribe
two_subscribed = refl

bus-IsLive : IsLive bus
bus-IsLive = record { given_out = refl; agree = refl }

-- The subscriber 1 leaves between two events, twice; the subscriber 0 gets both.
left_twice :
    calls 0
      (publishing started
        ∷ leaving 1
        ∷ leaving 1
        ∷ publishing finished
        ∷ receiving 0
        ∷ receiving 0
        ∷ [])
      bus
    ≡ some (
      started ∷ finished ∷ [],
      record {
        next = 2;
        subs = 0 ∷ [];
        channels =
            (1, record { buffer = started ∷ []; is_closed = true })
            ∷ (0, record { buffer = []; is_closed = false })
            ∷ [];
      },
    )
unfolding calls
left_twice = refl

calls-refines_example :
    Shows 1
      (calls 1 (publishing started ∷ leaving 1 ∷ publishing finished ∷ receiving 1 ∷ []) bus)
      (queue_calls 1
        (publishing started ∷ leaving 1 ∷ publishing finished ∷ receiving 1 ∷ [])
        (joined []))
unfolding view
calls-refines_example =
    calls-refines 1 (publishing started ∷ leaving 1 ∷ publishing finished ∷ receiving 1 ∷ []) bus
      (joined []) bus-IsLive refl

calls-IsDelivered_example :
    IsDelivered 1
      (published (publishing started ∷ leaving 0 ∷ receiving 1 ∷ publishing finished ∷ []))
      (calls 1 (publishing started ∷ leaving 0 ∷ receiving 1 ∷ publishing finished ∷ []) bus)
unfolding view
calls-IsDelivered_example =
    calls-IsDelivered 1 (publishing started ∷ leaving 0 ∷ receiving 1 ∷ publishing finished ∷ [])
      bus bus-IsLive refl
