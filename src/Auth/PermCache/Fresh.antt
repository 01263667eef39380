-- ===== src/Auth/PermCache/Fresh.antt =====
-- What each phase of a call may rely on, and that a step of it keeps this.
use mathlib.Core.Path.{subst}
use janus_server.Prelude.{
  ℕ, suc, ◌≤◌, ◌≡◌, refl, sym, ap, ◌∙◌, arith, Bool, true, false, Option, none, some,
}
use janus_server.Core.Redis.Values.{or_zero}
use janus_server.Auth.PermCache.Defs.{
  PermissionSnapshot, Generation, global_gen, user_gen, SnapshotKey, SnapshotCodec, PermStore,
  Phase, begun, keyed, missed, loaded, bypassed, returned, raised, current_key, after_get,
  after_decode, advance,
}
use janus_server.Auth.PermCache.Generations.{Below}

module _ {T : Type 0} (codec : SnapshotCodec T) (redis : PermStore T)
    (effective : ℕ → ℕ → PermissionSnapshot) where
  open redis use {
    Store, counter, snapshot, incr, set, delete, snapshot-incr, counter-set, snapshot-set,
    counter-delete, snapshot-delete,
  }

  -- A snapshot is what the user may do at a version between two.
  abbrev pub Serves : ℕ → ℕ → ℕ → PermissionSnapshot → Type 0
  Serves low high user_id x = (m : ℕ) × (x ≡ effective m user_id) × (low ≤ m) × (m ≤ high)

  -- `floor` gives, for each key, the version at the last invalidation before it became current.
  module _ (floor : SnapshotKey → ℕ) where
    abbrev pub Keyed : Store → ℕ → ℕ → SnapshotKey → Type 0
    Keyed s user_id since k = (k.user_id ≡ user_id) × Below codec redis k s × (since ≤ floor k)

    abbrev pub Fine : Store → ℕ → (ℕ → ℕ) → ℕ → ℕ → Phase → Type 0
    Fine s n invalidated user_id since begun = since ≤ invalidated user_id
    Fine s n invalidated user_id since (keyed k) = Keyed s user_id since k
    Fine s n invalidated user_id since (missed k) = Keyed s user_id since k
    Fine s n invalidated user_id since (loaded k x) =
        Keyed s user_id since k × Serves (floor k) n user_id x
    Fine s n invalidated user_id since bypassed = since ≤ n
    Fine s n invalidated user_id since (returned x) = Serves since n user_id x
    Fine s n invalidated user_id since raised = Unit

    abbrev pub Entries : Store → ℕ → Type 0
    Entries s n =
        (k : SnapshotKey) (t : T)
        → snapshot k s ≡ some t
        → Below codec redis k s
          × ((m : ℕ) × (t ≡ codec.encode (effective m k.user_id)) × (floor k ≤ m) × (m ≤ n))

    abbrev pub Current : Store → (ℕ → ℕ) → Type 0
    Current s invalidated = (u : ℕ) → floor (current_key codec redis u s) ≡ invalidated u

    -- A commit.
    pub Fine-suc :
        (s : Store) (n : ℕ) (inv : ℕ → ℕ) (u since : ℕ) (x : Phase)
        → Fine s n inv u since x
        → Fine s (suc n) inv u since x
    Fine-suc s n inv u since begun h = h
    Fine-suc s n inv u since (keyed k) h = h
    Fine-suc s n inv u since (missed k) h = h
    Fine-suc s n inv u since (loaded k x) (h, (m, q, low, high)) = (h, (m, q, low, omega arith))
    Fine-suc s n inv u since bypassed h = omega arith
    Fine-suc s n inv u since (returned x) (m, q, low, high) = (m, q, low, omega arith)
    Fine-suc s n inv u since raised h = tt

    -- A change of the store that leaves the counters alone.
    abbrev pub SameCounters : Store → Store → Type 0
    SameCounters s s' = (j : Generation) → counter j s' ≡ counter j s

    pub Below-same :
        (s s' : Store) (k : SnapshotKey)
        → SameCounters s s'
        → Below codec redis k s
        → Below codec redis k s'
    Below-same s s' k same (a, b) = (
      omega (arith, ap or_zero (same global_gen)),
      omega (arith, ap or_zero (same (user_gen k.user_id))),
    )

    pub Fine-same :
        (s s' : Store) (n : ℕ) (inv : ℕ → ℕ) (u since : ℕ) (x : Phase)
        → SameCounters s s'
        → Fine s n inv u since x
        → Fine s' n inv u since x
    Fine-same s s' n inv u since begun same h = h
    Fine-same s s' n inv u since (keyed k) same (eq, b, h) = (eq, Below-same s s' k same b, h)
    Fine-same s s' n inv u since (missed k) same (eq, b, h) = (eq, Below-same s s' k same b, h)
    Fine-same s s' n inv u since (loaded k x) same ((eq, b, h), rest) =
        ((eq, Below-same s s' k same b, h), rest)
    Fine-same s s' n inv u since bypassed same h = h
    Fine-same s s' n inv u since (returned x) same h = h
    Fine-same s s' n inv u since raised same h = tt

    pub Current-same :
        (s s' : Store) (inv : ℕ → ℕ) → SameCounters s s' → Current s inv → Current s' inv
    Current-same s s' inv same cur u =
        rw (ap or_zero (same global_gen), ap or_zero (same (user_gen u))) (cur u)

    -- What one step of a call needs and keeps.
    pub advance-SameCounters :
        (u : ℕ) (fails : Bool) (v : PermissionSnapshot) (x : Phase) (s : Store)
        → SameCounters s (advance codec redis u fails v x s).1
    unfolding advance
    advance-SameCounters u true v begun s j = refl
    advance-SameCounters u false v begun s j = refl
    advance-SameCounters u true v (keyed k) s j = refl
    advance-SameCounters u false v (keyed k) s j = refl
    advance-SameCounters u fails v (missed k) s j = refl
    advance-SameCounters u true v (loaded k x) s j = refl
    advance-SameCounters u false v (loaded k x) s j = counter-set j k (codec.encode x) s
    advance-SameCounters u fails v bypassed s j = refl
    advance-SameCounters u fails v (returned x) s j = refl
    advance-SameCounters u fails v raised s j = refl

    after_get-Fine :
        (s : Store) (n : ℕ) (inv : ℕ → ℕ) (u since : ℕ) (k : SnapshotKey) (o : Option T)
        → snapshot k s ≡ o
        → Entries s n
        → Keyed s u since k
        → Fine s n inv u since (after_get codec redis k o)
    after_get-Fine s n inv u since k none q entries h = h
    after_get-Fine s n inv u since k (some t) q entries (eq, b, h) =
        let (below, (m, made, low, high)) = entries k t q in
        subst (λ d. Fine s n inv u since (after_decode codec redis k d))
          (sym (ap codec.decode made ∙ codec.decode-encode (effective m k.user_id)))
          (m, ap (effective m) eq, omega arith, high)

    pub advance-Fine :
        (s : Store) (n : ℕ) (inv : ℕ → ℕ) (u since : ℕ) (fails : Bool) (x : Phase)
        → ((k : SnapshotKey) → floor k ≤ n)
        → Current s inv
        → Entries s n
        → Fine s n inv u since x
        → Fine s n inv u since (advance codec redis u fails (effective n u) x s).0
    unfolding advance
    advance-Fine s n inv u since true begun past cur entries h =
        omega (arith, past (current_key codec redis u s), cur u)
    advance-Fine s n inv u since false begun past cur entries h =
        (refl, (omega arith, omega arith), omega (arith, cur u))
    advance-Fine s n inv u since true (keyed k) past cur entries (eq, b, h) = omega (arith, past k)
    advance-Fine s n inv u since false (keyed k) past cur entries h =
        after_get-Fine s n inv u since k (snapshot k s) refl entries h
    advance-Fine s n inv u since fails (missed k) past cur entries h =
        (h, (n, refl, past k, omega arith))
    advance-Fine s n inv u since true (loaded k x) past cur entries
          ((eq, b, h), (m, q, low, high)) =
        (m, q, omega arith, high)
    advance-Fine s n inv u since false (loaded k x) past cur entries
          ((eq, b, h), (m, q, low, high)) =
        (m, q, omega arith, high)
    advance-Fine s n inv u since fails bypassed past cur entries h = (n, refl, h, omega arith)
    advance-Fine s n inv u since fails (returned x) past cur entries h = h
    advance-Fine s n inv u since fails raised past cur entries h = tt
