-- ===== src/Core/Snowflake/Fields.antt =====
-- The three fields of an id, while the clock is inside the 41 bits of the timestamp.
use janus_server.Prelude.{ℕ, ◌+◌, ◌-◌, ◌*◌, ◌/◌, ◌%◌, ◌^◌, ◌≤◌, ◌<◌, ◌≡◌, ◌∙◌, List, arith}
use janus_server.Prelude.Int.{ℤ, pos, eq_of_parts}
use janus_server.Core.Snowflake.{
  Generator, minted, epoch_ms, max_worker_id, max_sequence, pack, next_id,
}
use janus_server.Core.Snowflake.Step.{pack_lem, IsValid, stamp, next_id-Mints}

-- The id as a number below 2 ^ 63, whose bits give back the time, the worker and the sequence.
pub record HoldsFields (n now worker sequence : ℕ) : Type 0 where
  pub below : n < 2 ^ 63
  pub positive : epoch_ms < now → 0 < n
  pub timestamp : n / 2 ^ 22 + epoch_ms ≡ now
  pub worker_bits : n / 2 ^ 12 % 2 ^ 10 ≡ worker
  pub sequence_bits : n % 2 ^ 12 ≡ sequence

pack-HoldsFields :
    (now w s : ℕ)
    → w ≤ max_worker_id
    → s ≤ max_sequence
    → epoch_ms ≤ now
    → now < epoch_ms + 2 ^ 41
    → (n : ℕ) × (pack now w s ≡ pos n) × HoldsFields n now w s
pack-HoldsFields now w s hw hs lo hi = (
  (now - epoch_ms) * 2 ^ 22 + w * 2 ^ 12 + s,
  eq_of_parts _ _ (omega (arith, pack_lem now w s hw hs)),
  record {
    below = omega arith;
    positive = λ h. omega arith;
    timestamp = omega arith;
    worker_bits = omega arith;
    sequence_bits = omega arith;
  },
)

-- An id that is minted between the epoch and 2 ^ 41 ms after it is a number below 2 ^ 63, positive
-- but for the very instant of the epoch, and its fields read back as the time of the call, the worker and the sequence number.
pub next_id-HoldsFields :
    (g : Generator) (ts : List ℕ) (i : ℤ) (g' : Generator)
    → IsValid g
    → next_id g ts ≡ minted i g'
    → epoch_ms ≤ stamp g'
    → stamp g' < epoch_ms + 2 ^ 41
    → (n : ℕ) × (i ≡ pos n) × HoldsFields n (stamp g') g.worker_id g'.sequence
next_id-HoldsFields g ts i g' v h lo hi =
    let m = next_id-Mints g ts i g' v h in
    let (n, e, fields) =
      pack-HoldsFields (stamp g') g.worker_id g'.sequence v.worker_fits m.sequence_fits lo hi in
    (n, m.packed ∙ e, fields)
