-- ===== src/Core/Snowflake/Order.antt =====
-- Ids grow from call to call, and differ between workers.
use mathlib.Core.Path.{subst}
use janus_server.Prelude.{
  ap, ℕ, ◌+◌, ◌*◌, ◌^◌, ◌≤◌, ◌<◌, ◌≡◌, ◌≢◌, refl, inl, inr, Option-cases, none, some, List, [], ◌∷◌,
  arith, All,
}
use janus_server.Prelude.Int.{ℤ, pos_part, neg_part, ◌≤ℤ◌, ◌<ℤ◌}
use janus_server.Core.Snowflake.{
  Generator, Outcome, minted, rolled_back, waiting, max_worker_id, max_sequence, pack, next_id,
}
use janus_server.Core.Snowflake.Step.{pack_lem, IsValid, stamp, stamp-some, Mints, next_id-Mints}

-- The ids of a sequence of calls. A call that raises leaves the generator as it was; one that still
-- waits holds the lock, so that no later call begins.
pub mint_all : Generator → List (List ℕ) → List ℤ
mint_all g [] = []
mint_all g (ts ∷ calls) = elim (next_id g ts) [
  | minted i g' ↦ i ∷ mint_all g' calls
  | rolled_back ↦ mint_all g calls
  | waiting ↦ []
]

abbrev pub IsIncreasing : List ℤ → Type 0
IsIncreasing [] = Unit
IsIncreasing (i ∷ is) = All (λ j. i <ℤ j) is × IsIncreasing is

Mints-IsValid : (g : Generator) (i : ℤ) (g' : Generator) → IsValid g → Mints g i g' → IsValid g'
Mints-IsValid g i g' v m = ground (arith, v.worker_fits, m.same_worker, m.sequence_fits)

-- Every id from here on is above b.
abbrev Above : ℤ → Generator → Type 0
Above b g = (g.last_ms ≢ none) × (b ≤ℤ pack (stamp g) g.worker_id g.sequence)

slot-lt :
    (l t w q s : ℕ)
    → w ≤ max_worker_id
    → q ≤ max_sequence
    → s ≤ max_sequence
    → l * 2 ^ 12 + q < t * 2 ^ 12 + s
    → pack l w q <ℤ pack t w s
slot-lt l t w q s hw hq hs h = omega (arith, pack_lem l w q hw hq, pack_lem t w s hw hs)

Mints-later :
    (l : ℕ) (g : Generator) (i : ℤ) (g' : Generator)
    → g.last_ms ≡ some l
    → Mints g i g'
    → l * 2 ^ 12 + g.sequence < stamp g' * 2 ^ 12 + g'.sequence
Mints-later l g i g' e m = rw e at m.later

Mints-lt :
    (b : ℤ) (g : Generator) (i : ℤ) (g' : Generator) → IsValid g → Above b g → Mints g i g' → b <ℤ i
Mints-lt b g i g' v (started, le) m = elim (Option-cases g.last_ms) [
  | inl e ↦ absurd (started e)
  | inr (l, e) ↦
      let lt =
        slot-lt l (stamp g') g.worker_id g.sequence g'.sequence v.worker_fits v.sequence_fits
          m.sequence_fits (Mints-later l g i g' e m) in
      let le' : b ≤ℤ pack l g.worker_id g.sequence =
        subst (λ t. b ≤ℤ pack t g.worker_id g.sequence) (stamp-some g l e) le in
      rw m.packed (omega arith)
]

le_of_eq : (a b : ℤ) → a ≡ b → a ≤ℤ b
le_of_eq a b e = ground arith

Mints-Above : (g : Generator) (i : ℤ) (g' : Generator) → Mints g i g' → Above i g'
Mints-Above g i g' m = (λ e. cc (m.stamped, e), le_of_eq i _ (cc (m.packed, m.same_worker)))

Above-trans : (b i : ℤ) (g : Generator) → b <ℤ i → Above i g → Above b g
Above-trans b i g lt (started, le) = (started, omega arith)

All-map {ℓ κ μ} :
    {A : Type ℓ} {P : A → Type κ} {Q : A → Type μ}
    → ((a : A) → P a → Q a)
    → (xs : List A) → All P xs
    → All Q xs
All-map f [] h = tt
All-map f (x ∷ xs) h = (f x h.0, All-map f xs h.1)

-- What holds of no ids, and of one more id in front, holds of the ids of any calls.
module _ (P : Generator → List ℤ → Type 0) (empty : (g : Generator) → P g [])
    (more : (g : Generator) (i : ℤ) (g' : Generator) (is : List ℤ)
      → IsValid g
      → Mints g i g'
      → P g' is
      → P g (i ∷ is)) where
  mint_all_induction : (g : Generator) (calls : List (List ℕ)) → IsValid g → P g (mint_all g calls)
  unfolding mint_all
  mint_all_induction g [] v = empty g
  mint_all_induction g (ts ∷ calls) v = go (next_id g ts) refl (λ g'. mint_all_induction g' calls)
    where
      go :
          (o : Outcome)
          → next_id g ts ≡ o
          → ((g' : Generator) → IsValid g' → P g' (mint_all g' calls))
          → P g (elim o [
            | minted i g' ↦ i ∷ mint_all g' calls
            | rolled_back ↦ mint_all g calls
            | waiting ↦ []
          ])
      go (minted i g') e rest =
          let m = next_id-Mints g ts i g' v e in
          more g i g' (mint_all g' calls) v m (rest g' (Mints-IsValid g i g' v m))
      go rolled_back e rest = rest g v
      go waiting e rest = empty g

-- The ids from here on increase, and lie above all that the generator is above.
abbrev IncreasingFrom : Generator → List ℤ → Type 0
IncreasingFrom g is = IsIncreasing is × ((b : ℤ) → Above b g → All (λ j. b <ℤ j) is)

Mints-before :
    (g : Generator) (i : ℤ) (g' : Generator) (is : List ℤ)
    → IsValid g
    → Mints g i g'
    → ((b : ℤ) → Above b g' → All (λ j. b <ℤ j) is)
    → (b : ℤ) → Above b g
    → All (λ j. b <ℤ j) (i ∷ is)
Mints-before g i g' is v m rest b a =
    let lt = Mints-lt b g i g' v a m in (lt, rest b (Above-trans b i g' lt (Mints-Above g i g' m)))

-- The ids that a process mints, over any calls and any clock readings, strictly increase.
pub mint_all-IsIncreasing :
    (g : Generator) (calls : List (List ℕ)) → IsValid g → IsIncreasing (mint_all g calls)
mint_all-IsIncreasing g calls v =
    (mint_all_induction IncreasingFrom (λ g. (tt, λ b a. tt))
      (λ g i g' is v m rest.
        ((rest.1 i (Mints-Above g i g' m), rest.0), Mints-before g i g' is v m rest.1))
      g calls v).0

-- The ids that hold a given worker number.
OfWorker : ℕ → ℤ → Type 0
OfWorker w i = (t : ℕ) × (s : ℕ) × (s ≤ max_sequence) × (i ≡ pack t w s)

Mints-OfWorker : (g : Generator) (i : ℤ) (g' : Generator) → Mints g i g' → OfWorker g.worker_id i
unfolding OfWorker
Mints-OfWorker g i g' m = (stamp g', g'.sequence, m.sequence_fits, m.packed)

mint_all-OfWorker :
    (g : Generator) (calls : List (List ℕ))
    → IsValid g
    → All (OfWorker g.worker_id) (mint_all g calls)
mint_all-OfWorker g calls v =
    mint_all_induction (λ g is. All (OfWorker g.worker_id) is) (λ g. tt)
      (λ g i g' is v m rest.
        (Mints-OfWorker g i g' m, subst (λ w. All (OfWorker w) is) m.same_worker rest))
      g calls v

OfWorker-ne :
    (w w' : ℕ) (i j : ℤ)
    → w ≤ max_worker_id
    → w' ≤ max_worker_id
    → w ≢ w'
    → OfWorker w i
    → OfWorker w' j
    → i ≢ j
unfolding OfWorker
OfWorker-ne w w' i j hw hw' ne (t, s, hs, e) (t', s', hs', e') same =
    let eq : pack t w s ≡ pack t' w' s' = cc in
    ne (
      omega
        (arith, pack_lem t w s hw hs, pack_lem t' w' s' hw' hs', ap pos_part eq, ap neg_part eq))

-- Two processes with different worker numbers never mint the same id, whatever their clocks show.
pub mint_all-disjoint :
    (g h : Generator) (calls calls' : List (List ℕ))
    → IsValid g
    → IsValid h
    → g.worker_id ≢ h.worker_id
    → All (λ i. All (λ j. i ≢ j) (mint_all h calls')) (mint_all g calls)
mint_all-disjoint g h calls calls' v v' ne =
    All-map
      (λ i oi.
        All-map
          (λ j oj. OfWorker-ne g.worker_id h.worker_id i j v.worker_fits v'.worker_fits ne oi oj)
          (mint_all h calls') (mint_all-OfWorker h calls' v'))
      (mint_all g calls) (mint_all-OfWorker g calls v)
