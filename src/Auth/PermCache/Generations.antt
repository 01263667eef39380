-- ===== src/Auth/PermCache/Generations.antt =====
-- Generations only grow, and an invalidation leaves the old keys of its users behind.
use janus_server.Prelude.{
  ℕ, ◌+◌, ◌≤◌, ◌==◌, ◌≡◌, refl, ap, ◌∙◌, arith, Bool, true, false, some, ==_iff, if◌then◌else◌,
}
use janus_server.Core.Redis.Values.{or_zero}
use janus_server.Auth.PermCache.Defs.{
  Generation, global_gen, user_gen, same_generation, SnapshotKey, same_key, SnapshotCodec,
  PermStore, generation, current_key,
}
use janus_server.Auth.PermCache.Readers.{concerns}

pub same_key_self : (k : SnapshotKey) → same_key k k ≡ true
same_key_self k = ground arith

pub same_key-eq : (j k : SnapshotKey) → same_key j k ≡ true → j ≡ k
same_key-eq j k h = ground arith

module _ {T : Type 0} (codec : SnapshotCodec T) (redis : PermStore T) where
  open redis use {Store, counter, incr, counter-incr}

  -- A key that has been a current one.
  abbrev pub Below : SnapshotKey → Store → Type 0
  Below k s =
      (k.global_at ≤ generation codec redis global_gen s)
      × (k.user_at ≤ generation codec redis (user_gen k.user_id) s)

  pub generation-incr :
      (j k : Generation) (s : Store)
      → generation codec redis j (incr k s) ≡ (
          if same_generation j k
          then generation codec redis k s + 1
          else generation codec redis j s)
  generation-incr j k s = ap or_zero (counter-incr j k s) ∙ go (same_generation j k)
    where
      go :
          (b : Bool)
          → or_zero (if b then some (or_zero (counter k s) + 1) else counter j s)
            ≡ (if b then generation codec redis k s + 1 else generation codec redis j s)
      go true = refl
      go false = refl

  generation-incr_grows :
      (j k : Generation) (s : Store)
      → generation codec redis j s ≤ generation codec redis j (incr k s)
  generation-incr_grows global_gen global_gen s =
      omega (arith, generation-incr global_gen global_gen s)
  generation-incr_grows global_gen (user_gen v) s =
      omega (arith, generation-incr global_gen (user_gen v) s)
  generation-incr_grows (user_gen u) global_gen s =
      omega (arith, generation-incr (user_gen u) global_gen s)
  generation-incr_grows (user_gen u) (user_gen v) s =
      go (u == v) refl (generation-incr (user_gen u) (user_gen v) s)
    where
      go :
          (b : Bool)
          → (u == v) ≡ b
          → generation codec redis (user_gen u) (incr (user_gen v) s) ≡ (
              if b
              then generation codec redis (user_gen v) s + 1
              else generation codec redis (user_gen u) s)
          → generation codec redis (user_gen u) s
            ≤ generation codec redis (user_gen u) (incr (user_gen v) s)
      go true q h =
          let same : generation codec redis (user_gen u) s ≡ generation codec redis (user_gen v) s =
            ap (λ x. generation codec redis (user_gen x) s) ((==_iff u v).0 q) in
          omega arith
      go false q h = omega arith

  pub Below-incr : (k : SnapshotKey) (g : Generation) (s : Store) → Below k s → Below k (incr g s)
  Below-incr k g s (a, b) = (
    omega (arith, generation-incr_grows global_gen g s),
    omega (arith, generation-incr_grows (user_gen k.user_id) g s),
  )

  -- A key from before an invalidation of its user is no current key after it.
  pub Below-left_behind :
      (k : SnapshotKey) (g : Generation) (s : Store)
      → Below k s
      → concerns g k.user_id ≡ true
      → same_key k (current_key codec redis k.user_id (incr g s)) ≡ false
  Below-left_behind k global_gen s (a, b) h =
      ground (arith, generation-incr global_gen global_gen s)
  Below-left_behind k (user_gen u) s (a, b) h =
      let same : u ≡ k.user_id = (==_iff u k.user_id).0 h in
      let grown : generation codec redis (user_gen k.user_id) (incr (user_gen u) s)
          ≡ generation codec redis (user_gen k.user_id) s + 1 =
        ap (λ x. generation codec redis (user_gen k.user_id) (incr (user_gen x) s)) same
        ∙ generation-incr (user_gen k.user_id) (user_gen k.user_id) s
        ∙ ap
            (λ t.
              if t
              then generation codec redis (user_gen k.user_id) s + 1
              else generation codec redis (user_gen k.user_id) s)
            ((==_iff k.user_id k.user_id).1 refl) in
      ground arith

  -- The current key of a user whom it does not concern stays.
  pub current_key-incr :
      (u : ℕ) (g : Generation) (s : Store)
      → concerns g u ≡ false
      → current_key codec redis u (incr g s) ≡ current_key codec redis u s
  current_key-incr u global_gen s h = absurd cc
  current_key-incr u (user_gen v) s h =
      let same_global : generation codec redis global_gen (incr (user_gen v) s)
          ≡ generation codec redis global_gen s =
        generation-incr global_gen (user_gen v) s in
      let same_user : generation codec redis (user_gen u) (incr (user_gen v) s)
          ≡ generation codec redis (user_gen u) s =
        generation-incr (user_gen u) (user_gen v) s
        ∙ ap
            (λ t.
              if t
              then generation codec redis (user_gen v) s + 1
              else generation codec redis (user_gen u) s)
            (flipped u v h) in
      rw (same_global, same_user) refl
    where
      flipped : (u v : ℕ) → (v == u) ≡ false → (u == v) ≡ false
      flipped u v h = ground arith
