-- ===== src/Core/Snowflake/Progress.antt =====
-- When a call raises, and when it returns.
use mathlib.Core.Path.{subst}
use janus_server.Prelude.{
  ℕ, ◌+◌, ◌<◌, ◌≡◌, ◌≢◌, ◌↔◌, ◌⊎◌, inl, inr, Bool, true, false, none, some, List, [], ◌∷◌, arith,
  ltb, leb, Bool-cases, Option-cases,
}
use janus_server.Core.Snowflake.{
  Generator, rolled_back, waiting, max_rollback_wait_ms, read_while, take_slot, after_reading,
  next_id, finish,
}
use janus_server.Core.Snowflake.Step.{stamp, stamp-some}

-- Some reading lies behind the time t.
abbrev pub Passes : ℕ → List ℕ → Type 0
Passes t [] = ⊥
Passes t (now ∷ ts) = (t < now) ⊎ Passes t ts

module _ (test : ℕ → Bool) (t : ℕ) (ends : (now : ℕ) → t < now → test now ≡ false) where
  -- A loop that a reading behind t ends returns, and keeps such a reading if it ends before it.
  read_while-returns :
      (now : ℕ) (ts : List ℕ)
      → Passes t (now ∷ ts)
      → (u : ℕ) × (rest : List ℕ) × (read_while test now ts ≡ some (u, rest)) × Passes t (u ∷ rest)
  unfolding read_while
  read_while-returns now [] (inl h) = (now, [], rw (ends now h), inl h)
  read_while-returns now [] (inr h) = absurd h
  read_while-returns now (v ∷ ts) h = elim (Bool-cases (test now)) [
    | inl more ↦ rw more (read_while-returns v ts (later h more))
    | inr done ↦ (now, v ∷ ts, rw done, h)
  ]
    where
      later : (t < now) ⊎ Passes t (v ∷ ts) → test now ≡ true → Passes t (v ∷ ts)
      later (inl lt) more = cc (ends now lt)
      later (inr p) more = p

take_slot-returns :
    (g : Generator) (last now : ℕ) (ts : List ℕ)
    → Passes last (now ∷ ts)
    → take_slot g last (now, ts) ≢ waiting
unfolding take_slot
take_slot-returns g last now ts h e =
    let (u, rest, r, _) =
      read_while-returns (λ t. leb t last) last (λ t lt. ground arith) now ts h in
    ground (arith, r)

after_reading-returns :
    (g : Generator) (last now : ℕ) (ts : List ℕ)
    → Passes last (now ∷ ts)
    → after_reading g (some last) now ts ≢ waiting
unfolding after_reading
after_reading-returns g last now ts h e =
    let (u, rest, r, later) =
      read_while-returns (λ t. ltb t last) last (λ t lt. ground arith) now ts h in
    ground (arith, r, take_slot-returns g last u rest later, take_slot-returns g last now ts h)

no_last-returns : (g : Generator) (now : ℕ) (ts : List ℕ) → after_reading g none now ts ≢ waiting
unfolding after_reading finish
no_last-returns g now ts = ground arith

-- A call returns, with an id or an error, as soon as some reading of the clock lies behind the time
-- of the last id; before the first id any reading above 0 is enough.
pub next_id-ne-waiting :
    (g : Generator) (now : ℕ) (ts : List ℕ)
    → Passes (stamp g) (now ∷ ts)
    → next_id g (now ∷ ts) ≢ waiting
unfolding next_id
next_id-ne-waiting g now ts h = elim (Option-cases g.last_ms) [
  | inl e ↦ simp e (no_last-returns g now ts)
  | inr (last, e) ↦ simp e (
      after_reading-returns g last now ts
        (subst (λ t. Passes t (now ∷ ts)) (stamp-some g last e) h))
]

-- From here on nothing raises.
take_slot-ne-rolled_back :
    (g : Generator) (last : ℕ) (r : ℕ × List ℕ) → take_slot g last r ≢ rolled_back
unfolding take_slot finish
take_slot-ne-rolled_back g last (now, ts) = ground arith

after_reading-rolled_back :
    (g : Generator) (last now : ℕ) (ts : List ℕ)
    → (after_reading g (some last) now ts ≡ rolled_back) ↔ (now + max_rollback_wait_ms < last)
unfolding after_reading
after_reading-rolled_back g last now ts =
    elim (Option-cases (read_while (λ t. ltb t last) now ts)) [
      | inl e ↦ rw e (ground (arith, take_slot-ne-rolled_back g last (now, ts)))
      | inr (r, e) ↦ rw e (
          ground
            (arith, take_slot-ne-rolled_back g last (now, ts), take_slot-ne-rolled_back g last r))
    ]

-- A call raises ClockRollbackError exactly when its first reading lies more than 1000 ms before the
-- last id; what it reads later is not looked at.
pub next_id-rolled_back_iff :
    (g : Generator) (now : ℕ) (ts : List ℕ)
    → (next_id g (now ∷ ts) ≡ rolled_back) ↔ (now + max_rollback_wait_ms < stamp g)
unfolding next_id after_reading finish
next_id-rolled_back_iff g now ts = elim (Option-cases g.last_ms) [
  | inl e ↦ ground arith
  | inr (last, e) ↦ simp (e, stamp-some g last e) (after_reading-rolled_back g last now ts)
]
