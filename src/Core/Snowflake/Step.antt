-- ===== src/Core/Snowflake/Step.antt =====
-- What one call does: the id that it packs, and that its slot lies behind the last one.
use Prim.Native.Nat.{bit_and}
use janus_server.Prelude.{
  ℕ, ◌+◌, ◌-◌, ◌*◌, ◌^◌, ◌≤◌, ◌<◌, ◌≡◌, refl, inl, inr, Bool, false, Option, none, some, List, [],
  ◌∷◌, arith, ltb, leb, ◌==◌, Bool-cases, Option-cases,
}
use janus_server.Prelude.Bits.{bit_or-shift, bit_and-mask}
use janus_server.Prelude.Int.{ℤ, pos_part, neg_part}
use janus_server.Core.Snowflake.{
  Generator, Outcome, minted, waiting, epoch_ms, max_worker_id, max_sequence, max_rollback_wait_ms,
  read_while, pack, finish, take_slot, after_reading, next_id,
}

-- The number that the packed bits stand for, whichever side of the epoch the clock is on.
pub pack_lem :
    (now w s : ℕ)
    → w ≤ max_worker_id
    → s ≤ max_sequence
    → pos_part (pack now w s) + epoch_ms * 2 ^ 22
      ≡ neg_part (pack now w s) + now * 2 ^ 22 + w * 2 ^ 12 + s
unfolding pack
pack_lem now w s hw hs = ground (
  arith,
  bit_or-shift 12 ((now - epoch_ms) * 2 ^ 10 + w) s,
  bit_or-shift 22 (now - epoch_ms) (w * 2 ^ 12),
  bit_or-shift 12 w s,
)

pub record IsValid (g : Generator) : Type 0 where
  pub worker_fits : g.worker_id ≤ max_worker_id
  pub sequence_fits : g.sequence ≤ max_sequence

-- The time of the last id.
abbrev pub stamp : Generator → ℕ
stamp g = elim g.last_ms [ none ↦ 0 | some t ↦ t ]

pub stamp-some : (g : Generator) (l : ℕ) → g.last_ms ≡ some l → stamp g ≡ l
stamp-some g l e = ground arith

-- Time and sequence number as one number that grows.
abbrev IsLater : Option ℕ → ℕ → ℕ → ℕ → Type 0
IsLater none q t s = Unit
IsLater (some l) q t s = l * 2 ^ 12 + q < t * 2 ^ 12 + s

-- What a call that returns an id has done.
pub record Mints (g : Generator) (i : ℤ) (g' : Generator) : Type 0 where
  pub stamped : g'.last_ms ≡ some (stamp g')
  pub same_worker : g'.worker_id ≡ g.worker_id
  pub sequence_fits : g'.sequence ≤ max_sequence
  pub packed : i ≡ pack (stamp g') g.worker_id g'.sequence
  pub later : IsLater g.last_ms g.sequence (stamp g') g'.sequence

read_while-some :
    (test : ℕ → Bool) (now : ℕ) (ts : List ℕ) (t : ℕ) (rest : List ℕ)
    → read_while test now ts ≡ some (t, rest)
    → test t ≡ false
unfolding read_while
read_while-some test now [] t rest h = ground arith
read_while-some test now (u ∷ us) t rest h = ground (arith, read_while-some test u us t rest)

-- A read that the call ends by, in each of the places where a call may end.
abbrev Ends : Generator → Outcome → Type 0
Ends g (minted i g') = Mints g i g'
Ends g _ = Unit

-- `finish` at a slot that lies behind the last one.
finish-Ends :
    (g : Generator) (now s : ℕ)
    → s ≤ max_sequence
    → IsLater g.last_ms g.sequence now s
    → Ends g (finish g now s)
unfolding finish
finish-Ends g now s fits later = record {
  stamped = refl;
  same_worker = refl;
  sequence_fits = fits;
  packed = refl;
  later = later;
}

module _ (g : Generator) (last : ℕ) (e : g.last_ms ≡ some last) (v : IsValid g) where
  finish_after :
      (now s : ℕ)
      → s ≤ max_sequence
      → last * 2 ^ 12 + g.sequence < now * 2 ^ 12 + s
      → Ends g (finish g now s)
  finish_after now s fits later = finish-Ends g now s fits (rw e later)

  new_ms : (t : ℕ) → last < t → Ends g (finish g t 0)
  new_ms t h = finish_after t 0 (omega arith) (omega (arith, v.sequence_fits))

  next_ms :
      (now : ℕ) (ts : List ℕ) (o : Option (ℕ × List ℕ))
      → read_while (λ t. leb t last) now ts ≡ o
      → Ends g (elim o [ none ↦ waiting | some (t, rest) ↦ finish g t 0 ])
  next_ms now ts none h = tt
  next_ms now ts (some (t, rest)) h =
      new_ms t (ground (arith, read_while-some (λ t. leb t last) now ts t rest))

  take_slot-Ends : (now : ℕ) (ts : List ℕ) → last ≤ now → Ends g (take_slot g last (now, ts))
  unfolding take_slot
  take_slot-Ends now ts le = elim (Bool-cases (now == last)) [
    | inl same ↦ elim (Bool-cases (bit_and (g.sequence + 1) max_sequence == 0)) [
      | inl full ↦ rw (same, full) (next_ms now ts _ refl)
      | inr free ↦
          rw (same, free)
            (finish_after now (bit_and (g.sequence + 1) max_sequence)
              (omega (arith, bit_and-mask 12 (g.sequence + 1)))
              (ground (arith, bit_and-mask 12 (g.sequence + 1), v.sequence_fits)))
    ]
    | inr other ↦ rw other (new_ms now (ground arith))
  ]

  caught_up :
      (now : ℕ) (ts : List ℕ) (o : Option (ℕ × List ℕ))
      → read_while (λ t. ltb t last) now ts ≡ o
      → Ends g (elim o [ none ↦ waiting | some r ↦ take_slot g last r ])
  caught_up now ts none h = tt
  caught_up now ts (some (t, rest)) h =
      take_slot-Ends t rest (ground (arith, read_while-some (λ t. ltb t last) now ts t rest))

  after_reading-Ends : (now : ℕ) (ts : List ℕ) → Ends g (after_reading g (some last) now ts)
  unfolding after_reading
  after_reading-Ends now ts = elim (Bool-cases (ltb now last)) [
    | inl back ↦ elim (Bool-cases (ltb max_rollback_wait_ms (last - now))) [
      | inl far ↦ rw (back, far) tt
      | inr near ↦ rw (back, near) (caught_up now ts _ refl)
    ]
    | inr ahead ↦ rw ahead (take_slot-Ends now ts (ground arith))
  ]

first_reading-Ends :
    (g : Generator) (now : ℕ) (ts : List ℕ)
    → g.last_ms ≡ none
    → Ends g (after_reading g none now ts)
unfolding after_reading
first_reading-Ends g now ts e = finish-Ends g now 0 (omega arith) (rw e tt)

next_id-Ends : (g : Generator) (ts : List ℕ) → IsValid g → Ends g (next_id g ts)
unfolding next_id
next_id-Ends g [] v = tt
next_id-Ends g (now ∷ ts) v = elim (Option-cases g.last_ms) [
  | inl e ↦ simp e (first_reading-Ends g now ts e)
  | inr (last, e) ↦ simp e (after_reading-Ends g last e v now ts)
]

pub next_id-Mints :
    (g : Generator) (ts : List ℕ) (i : ℤ) (g' : Generator)
    → IsValid g
    → next_id g ts ≡ minted i g'
    → Mints g i g'
next_id-Mints g ts i g' v h = rw h at (next_id-Ends g ts v)
