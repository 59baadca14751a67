-- ===== src/Client/KeepingAlive.antt =====
-- How `send_keep_alive` ends, and that it does.
use chubby.Prelude.{
  ℕ, suc, ◌+◌, ◌≤◌, ◌<◌, ◌≡◌, refl, subst, ◌⊎◌, inl, inr, Bool, true, false, Bool-cases,
  Option-cases, ◌≢◌, Option, some, none, List, [], ◌∷◌, ltb, arith,
}
use chubby.Prelude.Int.{ℤ, pos, negsuc}
use chubby.Prelude.Map.{◌==◌, string_eq}
use chubby.Client.{
  ClientLib, Attempt, Turn, new_epoch, new_lease, retry, turn, grace_period, grace_loop,
  send_keep_alive,
}

turn-cases :
    (t : Turn)
    → ((epoch : ℤ) × (t ≡ new_epoch epoch)) ⊎ ((lease : ℕ) × (t ≡ new_lease lease)) ⊎ (t ≡ retry)
turn-cases (new_epoch epoch) = inl (epoch, refl)
turn-cases (new_lease lease) = inr (inl (lease, refl))
turn-cases retry = inr (inr refl)

-- The three results, with what each leaves of the client.
abbrev pub Ends : ClientLib → ℤ × ClientLib → Type 0
Ends c (code, c') =
    ((code ≡ pos 0) × (c'.accept_requests ≡ true))
    ⊎ ((code ≡ negsuc 0) × (c'.client_lease_timeout ≡ c.client_lease_timeout))
    ⊎ ((code ≡ negsuc 1)
        × (c'.accept_requests ≡ false)
        × (c'.client_lease_timeout ≡ c.client_lease_timeout))

abbrev pub length : List Attempt → ℕ
length [] = 0
length (attempt ∷ rest) = suc (length rest)

-- Attempts in which no response brings a new epoch, and the clock moves on in each.
abbrev pub Quiet : ℤ → ℕ → List Attempt → Type 0
Quiet latest now [] = Unit {0}
Quiet latest now (attempt ∷ rest) =
    ((epoch : ℤ) → turn latest attempt.response ≢ new_epoch epoch)
    × (now < attempt.clock)
    × Quiet latest attempt.clock rest

test_false : (a b : ℕ) → b ≤ a → ltb a b ≡ false
test_false a b h = ground arith

-- The time that the loops end at, at the latest.
abbrev pub deadline : ClientLib → ℕ
deadline c = c.client_lease_timeout + grace_period

-- A result, if there is one, is one of the three.
abbrev pub Good : ClientLib → Option (ℤ × ClientLib) → Type 0
Good c none = Unit {0}
Good c (some result) = Ends c result

grace_loop-Good :
    (attempts : List Attempt) (now : ℕ) (c : ClientLib) → Good c (grace_loop attempts now c)
unfolding grace_loop
grace_loop-Good [] now c = elim (Bool-cases (ltb now (deadline c))) [
  | inl more ↦ rw more tt
  | inr over ↦ rw over (inr (inl (refl, refl)))
]
grace_loop-Good (attempt ∷ rest) now c = elim (Bool-cases (ltb now (deadline c))) [
  | inr over ↦ rw over (inr (inl (refl, refl)))
  | inl more ↦ rw more (elim (Bool-cases (attempt.server == "")) [
    | inl empty ↦ rw empty (inr (inr (refl, refl, refl)))
    | inr named ↦ rw named (elim (turn-cases (turn c.latest_epoch_number attempt.response)) [
      | inl (epoch, e) ↦ rw e (
          grace_loop-Good rest now
            (record c { accept_requests = false; latest_epoch_number = epoch }))
      | inr (inl (lease, e)) ↦ rw e (inl (refl, refl))
      | inr (inr e) ↦
          rw e (grace_loop-Good rest attempt.clock (record c { accept_requests = false }))
    ])
  ])
]

send_keep_alive-Good :
    (attempts : List Attempt) (now between : ℕ) (c : ClientLib)
    → Good c (send_keep_alive attempts now between c)
unfolding send_keep_alive
send_keep_alive-Good [] now between c = elim (Bool-cases (ltb now c.client_lease_timeout)) [
  | inl more ↦ rw more tt
  | inr over ↦ rw over (grace_loop-Good [] between c)
]
send_keep_alive-Good (attempt ∷ rest) now between c =
    elim (Bool-cases (ltb now c.client_lease_timeout)) [
      | inr over ↦ rw over (grace_loop-Good (attempt ∷ rest) between c)
      | inl more ↦ rw more (elim (turn-cases (turn c.latest_epoch_number attempt.response)) [
        | inl (epoch, e) ↦
            rw e (send_keep_alive-Good rest now between (record c { latest_epoch_number = epoch }))
        | inr (inl (lease, e)) ↦ rw e (inl (refl, refl))
        | inr (inr e) ↦ rw e (send_keep_alive-Good rest attempt.clock between c)
      ])
    ]

abbrev returns : Option (ℤ × ClientLib) → Bool
returns none = false
returns (some result) = true

grace_loop-returns :
    (attempts : List Attempt) (now : ℕ) (c : ClientLib)
    → Quiet c.latest_epoch_number now attempts
    → deadline c ≤ now + length attempts
    → returns (grace_loop attempts now c) ≡ true
unfolding grace_loop
grace_loop-returns [] now c quiet enough = rw (test_false now (deadline c) (omega arith)) refl
grace_loop-returns (attempt ∷ rest) now c quiet enough = elim (Bool-cases (ltb now (deadline c))) [
  | inr over ↦ rw over refl
  | inl more ↦ rw more (elim (Bool-cases (attempt.server == "")) [
    | inl empty ↦ rw empty refl
    | inr named ↦ rw named (elim (turn-cases (turn c.latest_epoch_number attempt.response)) [
      | inl (epoch, e) ↦ absurd (quiet.0 epoch e)
      | inr (inl (lease, e)) ↦ rw e refl
      | inr (inr e) ↦ rw e (
          grace_loop-returns rest attempt.clock (record c { accept_requests = false }) quiet.2
            (omega (arith, quiet.1)))
    ])
  ])
]

-- The grace period ends. When no response brings a new epoch, the clock moves on by a second at least
-- in each attempt, and there are as many attempts as seconds are left, the loop returns one of the
-- three results: 0 with requests accepted, -1 with the lease as it was, or -2 with the lease as it was
-- and requests no longer accepted. A result of the whole of `send_keep_alive`, if there is one, is one
-- of the three too, also for other attempts.
pub grace_period_lem :
    (attempts others : List Attempt) (now start between : ℕ) (c : ClientLib)
    → Quiet c.latest_epoch_number now attempts
    → deadline c ≤ now + length attempts
    → ((result : ℤ × ClientLib) × (grace_loop attempts now c ≡ some result) × Ends c result)
      × Good c (send_keep_alive others start between c)
grace_period_lem attempts others now start between c quiet enough = (
  elim (Option-cases (grace_loop attempts now c)) [
    | inl gone ↦ ground (arith, gone, grace_loop-returns attempts now c quiet enough)
    | inr (result, found) ↦ (result, found, subst (Good c) found (grace_loop-Good attempts now c))
  ],
  send_keep_alive-Good others start between c,
)
