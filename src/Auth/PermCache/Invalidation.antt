-- ===== src/Auth/PermCache/Invalidation.antt =====
-- The invariant of the cache, and that an invalidation keeps it.
use janus_server.Prelude.{
  ℕ, ◌≤◌, ◌&&◌, ◌≡◌, refl, sym, ap, ◌∙◌, arith, Bool, true, false, some, if◌then◌else◌,
}
use janus_server.Auth.PermCache.Defs.{
  PermissionSnapshot, Generation, SnapshotKey, same_key, SnapshotCodec, PermStore, Phase, begun,
  keyed, missed, loaded, bypassed, returned, raised, current_key,
}
use janus_server.Auth.PermCache.Readers.{concerns, Reader, World}
use janus_server.Auth.PermCache.Generations.{
  same_key_self, Below, Below-incr, Below-left_behind, current_key-incr,
}
use janus_server.Auth.PermCache.Fresh.{Fine, Entries, Current}

module _ {T : Type 0} (codec : SnapshotCodec T) (redis : PermStore T)
    (effective : ℕ → ℕ → PermissionSnapshot) where
  open redis use {
    Store, counter, snapshot, incr, set, delete, snapshot-incr, counter-set, snapshot-set,
    counter-delete, snapshot-delete,
  }

  pub record Safe (w : World codec redis effective) : Type 0 where
    pub floor : SnapshotKey → ℕ
    pub past : (k : SnapshotKey) → floor k ≤ w.version
    pub current : Current codec redis effective floor w.store w.invalidated
    pub entries : Entries codec redis effective floor w.store w.version
    pub fine :
        (id : ℕ) (r : Reader codec redis effective)
        → w.readers id ≡ some r
        → Fine codec redis effective floor w.store w.version w.invalidated r.user_id r.since r.phase

  -- After an invalidation.
  module _ (g : Generation) (w : World codec redis effective) (safe : Safe w) where
    open safe use {floor, past, current, entries, fine}

    abbrev pub s' : Store
    s' = incr g w.store

    abbrev pub bumped : SnapshotKey → Bool
    bumped k = concerns g k.user_id && same_key k (current_key codec redis k.user_id s')

    abbrev pub floor' : SnapshotKey → ℕ
    floor' k = if bumped k then w.version else floor k

    abbrev pub inv' : ℕ → ℕ
    inv' u = if concerns g u then w.version else w.invalidated u

    kept : (k : SnapshotKey) → Below codec redis k w.store → floor' k ≡ floor k
    kept k b = go (concerns g k.user_id) refl
      where
        go :
            (c : Bool)
            → concerns g k.user_id ≡ c
            → (if c && same_key k (current_key codec redis k.user_id s')
                then w.version
                else floor k)
              ≡ floor k
        go true q = rw (Below-left_behind codec redis k g w.store b q) refl
        go false q = refl

    invalidated-le : (u : ℕ) → w.invalidated u ≤ inv' u
    invalidated-le u = go (concerns g u)
      where
        go : (c : Bool) → w.invalidated u ≤ (if c then w.version else w.invalidated u)
        go true = omega (arith, past (current_key codec redis u w.store), current u)
        go false = omega arith

    pub past' : (k : SnapshotKey) → floor' k ≤ w.version
    past' k = go (bumped k)
      where
        go : (c : Bool) → (if c then w.version else floor k) ≤ w.version
        go true = omega arith
        go false = past k

    pub current' : Current codec redis effective floor' s' inv'
    current' u = go (concerns g u) refl
      where
        go :
            (c : Bool)
            → concerns g u ≡ c
            → (if c && same_key (current_key codec redis u s') (current_key codec redis u s')
                then w.version
                else floor (current_key codec redis u s'))
              ≡ (if c then w.version else w.invalidated u)
        go true q = rw (same_key_self (current_key codec redis u s')) refl
        go false q = ap floor (current_key-incr codec redis u g w.store q) ∙ current u

    pub fine' :
        (u since : ℕ) (x : Phase)
        → Fine codec redis effective floor w.store w.version w.invalidated u since x
        → Fine codec redis effective floor' s' w.version inv' u since x
    fine' u since begun h = omega (arith, invalidated-le u)
    fine' u since (keyed k) (eq, b, h) =
        (eq, Below-incr codec redis k g w.store b, omega (arith, kept k b))
    fine' u since (missed k) (eq, b, h) =
        (eq, Below-incr codec redis k g w.store b, omega (arith, kept k b))
    fine' u since (loaded k x) ((eq, b, h), (m, q, low, high)) = (
      (eq, Below-incr codec redis k g w.store b, omega (arith, kept k b)),
      (m, q, omega (arith, kept k b), high),
    )
    fine' u since bypassed h = h
    fine' u since (returned x) h = h
    fine' u since raised h = tt

    pub entries' : Entries codec redis effective floor' s' w.version
    entries' k t q =
        let (b, (m, made, low, high)) = entries k t (sym (snapshot-incr k g w.store) ∙ q) in
        (Below-incr codec redis k g w.store b, (m, made, omega (arith, kept k b), high))
