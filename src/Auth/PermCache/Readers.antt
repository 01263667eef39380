-- ===== src/Auth/PermCache/Readers.antt =====
-- Readers and writers beside each other. The database has versions, one for each commit; `effective`
-- says what a user may do at each of them. A writer commits and, later, invalidates.
use janus_server.Prelude.{ℕ, suc, ◌==◌, ◌≡◌, Bool, true, false, Option, none, some, if◌then◌else◌}
use janus_server.Auth.PermCache.Defs.{
  PermissionSnapshot, Generation, global_gen, user_gen, SnapshotKey, SnapshotCodec, PermStore,
  Phase, begun, advance, invalidate,
}

-- Whether a counter stands in the keys of a user.
abbrev pub concerns : Generation → ℕ → Bool
concerns global_gen user_id = true
concerns (user_gen u) user_id = u == user_id

module _ {T : Type 0} (codec : SnapshotCodec T) (redis : PermStore T)
    (effective : ℕ → ℕ → PermissionSnapshot) where
  open redis use {Store, delete}

  -- A call of load_snapshot. `since` is the version of the database at the last invalidation of the
  -- user that had run when the call began.
  pub record Reader : Type 0 where
    pub user_id : ℕ
    pub phase : Phase
    pub since : ℕ

  pub record World : Type 0 where
    pub store : Store
    pub version : ℕ
    -- The version at the last invalidation that concerned a user.
    pub invalidated : ℕ → ℕ
    pub readers : ℕ → Option Reader

  abbrev pub set_reader : ℕ → Option Reader → World → ℕ → Option Reader
  set_reader id o w i = if i == id then o else w.readers i

  abbrev pub next : World → Bool → Reader → Phase × Store
  next w fails r =
      advance codec redis r.user_id fails (effective w.version r.user_id) r.phase w.store

  pub data Step (w : World) : World → Type 0 where
    commits : Step w (record w { version = suc w.version })
    -- An after-commit hook whose INCR runs. One that fails changes nothing.
    invalidates :
        (k : Generation)
        → Step w (record w {
          store = invalidate codec redis k false w.store;
          invalidated = λ u. if concerns k u then w.version else w.invalidated u;
        })
    begins :
        (id user_id : ℕ)
        → w.readers id ≡ none
        → Step w (record w {
          readers =
              set_reader id
                (some (record { user_id = user_id; phase = begun; since = w.invalidated user_id }))
                w;
        })
    advances :
        (id : ℕ) (r : Reader) (fails : Bool)
        → w.readers id ≡ some r
        → Step w (record w {
          store = (next w fails r).1;
          readers = set_reader id (some (record r { phase = (next w fails r).0 })) w;
        })
    ends : (id : ℕ) → Step w (record w { readers = set_reader id none w })
    expires : (k : SnapshotKey) → Step w (record w { store = delete k w.store })

  pub data Reachable (w : World) : World → Type 0 where
    here : Reachable w w
    later : {v u : World} → Reachable w v → Step v u → Reachable w u
