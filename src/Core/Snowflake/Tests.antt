-- ===== src/Core/Snowflake/Tests.antt =====
-- Runs of the generator on concrete readings of the clock.
use janus_server.Prelude.{
  ℕ, ◌+◌, ◌-◌, ◌*◌, ◌<◌, ◌^◌, ◌≡◌, ◌≢◌, ◌↔◌, refl, inl, inr, none, some, List, [], ◌∷◌, arith, All,
}
use janus_server.Prelude.Int.{pos}
use janus_server.Core.Snowflake.{
  Generator, epoch_ms, max_worker_id, max_rollback_wait_ms, minted, rolled_back, waiting, next_id,
}
use janus_server.Core.Snowflake.Step.{IsValid}
use janus_server.Core.Snowflake.Order.{
  mint_all, IsIncreasing, mint_all-IsIncreasing, mint_all-disjoint,
}
use janus_server.Core.Snowflake.Fields.{HoldsFields, next_id-HoldsFields}
use janus_server.Core.Snowflake.Progress.{next_id-ne-waiting, next_id-rolled_back_iff}

abbrev start : ℕ
start = epoch_ms + 1000

abbrev first : Generator
first = record { worker_id = 5; last_ms = none; sequence = 0 }

abbrev second : Generator
second = record { worker_id = 6; last_ms = none; sequence = 0 }

-- A generator that has used up a millisecond.
abbrev full : Generator
full = record { worker_id = 5; last_ms = some start; sequence = 4095 }

-- Two calls in one millisecond, then one with the clock set back by two.
abbrev calls : List (List ℕ)
calls =
    (start ∷ []) ∷ (start ∷ []) ∷ (start ∷ (start + 3) ∷ []) ∷ ((start - 2) ∷ (start + 3) ∷ []) ∷ []

first-IsValid : IsValid first
first-IsValid = record { worker_fits = omega arith; sequence_fits = omega arith }

second-IsValid : IsValid second
second-IsValid = record { worker_fits = omega arith; sequence_fits = omega arith }

full-IsValid : IsValid full
full-IsValid = record { worker_fits = omega arith; sequence_fits = omega arith }

-- The call waits for the next millisecond, and starts again from 0.
next_id-full :
    next_id full (start ∷ start ∷ (start + 1) ∷ [])
    ≡ minted
        (pos (1001 * 2 ^ 22 + 5 * 2 ^ 12))
        (record full { last_ms = some (start + 1); sequence = 0 })
unfolding next_id janus_server.Core.Snowflake.pack
next_id-full = refl

mint_all-IsIncreasing_example : IsIncreasing (mint_all first calls)
mint_all-IsIncreasing_example = mint_all-IsIncreasing first calls first-IsValid

mint_all-disjoint_example :
    All (λ i. All (λ j. i ≢ j) (mint_all second calls)) (mint_all first calls)
mint_all-disjoint_example =
    mint_all-disjoint first second calls calls first-IsValid second-IsValid (λ h. omega arith)

next_id-HoldsFields_example :
    (n : ℕ) × (pos (1001 * 2 ^ 22 + 5 * 2 ^ 12) ≡ pos n) × HoldsFields n (start + 1) 5 0
next_id-HoldsFields_example =
    next_id-HoldsFields full (start ∷ start ∷ (start + 1) ∷ []) _
      (record full { last_ms = some (start + 1); sequence = 0 }) full-IsValid next_id-full
      (omega arith) (omega arith)

next_id-ne-waiting_example : next_id full (start ∷ (start + 1) ∷ []) ≢ waiting
next_id-ne-waiting_example =
    next_id-ne-waiting full start ((start + 1) ∷ []) (inr (inl (omega arith)))

next_id-rolled_back_iff_example :
    (next_id full ((start - 1001) ∷ start ∷ []) ≡ rolled_back)
    ↔ (start - 1001 + max_rollback_wait_ms < start)
next_id-rolled_back_iff_example = next_id-rolled_back_iff full (start - 1001) (start ∷ [])
