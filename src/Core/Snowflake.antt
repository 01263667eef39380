-- ===== src/Core/Snowflake.antt =====
-- src/core/snowflake.py: the id generator of one process. The module globals are a record; the
-- lock makes each call one step. The clock is an argument: the readings that a call will see.
pub mod Step
pub mod Order
pub mod Fields
pub mod Progress
pub mod Worker
mod Tests
use Prim.Native.Nat.{bit_and, bit_or}
use janus_server.Prelude.{
  ℕ, ◌+◌, ◌-◌, ◌*◌, ◌^◌, Bool, Option, none, some, List, [], ◌∷◌, ltb, leb, ◌==◌, if◌then◌else◌,
}
use janus_server.Prelude.Int.{ℤ, pos, negsuc, sub_ℕ}

abbrev pub epoch_ms : ℕ
epoch_ms = 1735689600000

abbrev pub max_worker_id : ℕ
max_worker_id = 2 ^ 10 - 1

abbrev pub max_sequence : ℕ
max_sequence = 2 ^ 12 - 1

abbrev pub max_rollback_wait_ms : ℕ
max_rollback_wait_ms = 1000

-- `_last_ms` is `none` for the initial -1, which is below every reading.
pub record Generator : Type 0 where
  pub worker_id : ℕ
  pub last_ms : Option ℕ
  pub sequence : ℕ

abbrev pub initial : Generator
initial = record { worker_id = 0; last_ms = none; sequence = 0 }

-- `none` is the ValueError.
unfoldable pub set_worker_id : ℤ → Generator → Option Generator
set_worker_id (pos n) g = if leb n max_worker_id then some (record g { worker_id = n }) else none
set_worker_id (negsuc n) g = none

-- How a call ends: with an id, with ClockRollbackError, or not within the readings given.
pub data Outcome : Type 0 where
  minted : ℤ → Generator → Outcome
  rolled_back : Outcome
  waiting : Outcome

-- `while test(now): now = _now_ms()`. The rest of the readings comes back with the last one read.
read_while : (ℕ → Bool) → ℕ → List ℕ → Option (ℕ × List ℕ)
read_while test now [] = if test now then none else some (now, [])
read_while test now (t ∷ ts) =
    let later = read_while test t ts in if test now then later else some (now, t ∷ ts)

-- The bits of an id. Before the epoch the timestamp field is negative: `|` of a negative number
-- whose low bits are zero and a field that fits in those bits adds the field.
pub pack : ℕ → ℕ → ℕ → ℤ
pack now worker sequence =
    if leb epoch_ms now
    then pos (bit_or (bit_or ((now - epoch_ms) * 2 ^ 22) (worker * 2 ^ 12)) sequence)
    else sub_ℕ (bit_or (worker * 2 ^ 12) sequence) ((epoch_ms - now) * 2 ^ 22)

finish : Generator → ℕ → ℕ → Outcome
finish g now sequence =
    minted (pack now g.worker_id sequence) (record g { last_ms = some now; sequence = sequence })

-- From `if now == _last_ms` on.
take_slot : Generator → ℕ → ℕ × List ℕ → Outcome
unfolding finish read_while
take_slot g last (now, ts) =
    let sequence = bit_and (g.sequence + 1) max_sequence in
    if now == last
    then if sequence == 0
      then elim (read_while (λ t. leb t last) now ts) [
        | none ↦ waiting
        | some (t, rest) ↦ finish g t 0
      ]
      else finish g now sequence
    else finish g now 0

-- From `if now < _last_ms` on.
after_reading : Generator → Option ℕ → ℕ → List ℕ → Outcome
unfolding take_slot
after_reading g none now ts = finish g now 0
after_reading g (some last) now ts =
    if ltb now last
    then if ltb max_rollback_wait_ms (last - now)
      then rolled_back
      else elim (read_while (λ t. ltb t last) now ts) [
        | none ↦ waiting
        | some r ↦ take_slot g last r
      ]
    else take_slot g last (now, ts)

unfoldable pub next_id : Generator → List ℕ → Outcome
unfolding after_reading
next_id g [] = waiting
next_id g (now ∷ ts) = after_reading g g.last_ms now ts
