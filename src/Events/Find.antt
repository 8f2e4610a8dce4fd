-- ===== src/Events/Find.antt =====
-- The channel of one subscriber, before and after a call (internal/events/events.go).
use one_ssh.Base.{
  ℕ, ◌<◌, true, List, [], ◌∷◌, some, if◌then◌else◌, any, all, ltb, ◌==◌, ◌≡◌, ap, subst, arith,
  Bool-cases, inl, inr,
}
use one_ssh.Events.{Event, Channel, received, receive_from}
use one_ssh.Events.Views.{find_channel, filled, sent, shut, agrees}

module _ {D : Type 0} where
  pub find-sent :
      (id : ℕ) (e : Event D) (subs : List ℕ) (cs : List (ℕ × Channel D)) (c : Channel D)
      → find_channel id cs ≡ some c
      → find_channel id (sent e subs cs) ≡ some (if any (λ s. s == id) subs then filled e c else c)
  unfolding find_channel sent
  find-sent id e subs [] c h = cc
  find-sent id e subs ((key, d) ∷ cs) c h = elim (Bool-cases (key == id)) [
    | inl k ↦
        let same : key ≡ id = ground arith in
        let on : any (λ s. s == key) subs ≡ any (λ s. s == id) subs =
          ap (λ i. any (λ s. s == i) subs) same in
        ground arith
    | inr k ↦ let r = find-sent id e subs cs c in ground arith
  ]

  pub find-shut :
      (id i : ℕ) (cs : List (ℕ × Channel D)) (c : Channel D)
      → find_channel id cs ≡ some c
      → find_channel id (shut i cs) ≡ some (if i == id then record c { is_closed = true } else c)
  unfolding find_channel shut
  find-shut id i [] c h = cc
  find-shut id i ((key, d) ∷ cs) c h = ground (arith, find-shut id i cs c)

  pub find-received :
      (id i : ℕ) (cs : List (ℕ × Channel D)) (c : Channel D)
      → find_channel id cs ≡ some c
      → find_channel id (receive_from i cs).1 ≡ some (if i == id then (received c).1 else c)
  unfolding find_channel receive_from
  find-received id i [] c h = cc
  find-received id i ((key, d) ∷ cs) c h = ground (arith, find-received id i cs c)

  pub got-received :
      (id : ℕ) (cs : List (ℕ × Channel D)) (c : Channel D)
      → find_channel id cs ≡ some c
      → (receive_from id cs).0 ≡ (received c).0
  unfolding find_channel receive_from
  got-received id [] c h = cc
  got-received id ((key, d) ∷ cs) c h = ground (arith, got-received id cs c)

  pub find-agrees :
      (id : ℕ) (subs : List ℕ) (cs : List (ℕ × Channel D)) (c : Channel D)
      → find_channel id cs ≡ some c
      → all (agrees subs) cs ≡ true
      → agrees subs (id, c) ≡ true
  unfolding find_channel
  find-agrees id subs [] c h a = cc
  find-agrees id subs ((key, d) ∷ cs) c h a = elim (Bool-cases (key == id)) [
    | inl k ↦
        let same : key ≡ id = ground arith in
        let here : agrees subs (id, d) ≡ true =
          subst (λ i. agrees subs (i, d) ≡ true) same (ground arith) in
        ground arith
    | inr k ↦ let r = find-agrees id subs cs c in ground arith
  ]

  pub find-given_out :
      (id n : ℕ) (cs : List (ℕ × Channel D)) (c : Channel D)
      → find_channel id cs ≡ some c
      → all (λ p. ltb p.0 n) cs ≡ true
      → id < n
  unfolding find_channel
  find-given_out id n [] c h a = cc
  find-given_out id n ((key, d) ∷ cs) c h a = ground (arith, find-given_out id n cs c)
