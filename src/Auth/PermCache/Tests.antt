-- ===== src/Auth/PermCache/Tests.antt =====
-- The race that the generations close: a call loads permissions, they are revoked and the cache is
-- invalidated, and only then the call writes what it loaded. The next call does not see it.
use janus_server.Prelude.{
  ℕ, zero, suc, ◌+◌, ◌≤◌, ◌≡◌, refl, false, Option, none, some, [], ◌∷◌, if◌then◌else◌,
}
use janus_server.Core.Redis.Values.{or_zero}
use janus_server.Auth.PermCache.Defs.{
  PermissionSnapshot, Generation, user_gen, same_generation, SnapshotKey, same_key, SnapshotCodec,
  decoded, PermStore, Phase, begun, keyed, missed, loaded, returned, advance, invalidate,
}
use janus_server.Auth.PermCache.Readers.{
  concerns, Reader, World, set_reader, next, commits, invalidates, begins, advances, Reachable,
  here, later,
}
use janus_server.Auth.PermCache.Served.{Reachable-Serves}

abbrev codec : SnapshotCodec PermissionSnapshot
codec = record { encode = λ x. x; decode = decoded; decode-encode = λ x. refl }

abbrev server : PermStore PermissionSnapshot
server = record {
  Store = (Generation → Option ℕ) × (SnapshotKey → Option PermissionSnapshot);
  counter = λ k s. s.0 k;
  snapshot = λ k s. s.1 k;
  incr = λ k s. (λ j. if same_generation j k then some (or_zero (s.0 k) + 1) else s.0 j, s.1);
  set = λ k t s. (s.0, λ j. if same_key j k then some t else s.1 j);
  delete = λ k s. (s.0, λ j. if same_key j k then none else s.1 j);
  counter-incr = λ j k s. refl;
  snapshot-incr = λ j k s. refl;
  counter-set = λ j k t s. refl;
  snapshot-set = λ j k t s. refl;
  counter-delete = λ j k s. refl;
  snapshot-delete = λ j k s. refl;
}

-- The first commit revokes the permission.
abbrev rights : ℕ → ℕ → PermissionSnapshot
rights zero user_id = record { permissions = "system:user:delete" ∷ []; role_codes = [] }
rights (suc n) user_id = record { permissions = []; role_codes = [] }

abbrev Cluster : Type 0
Cluster = World codec server rights

abbrev Call : Type 0
Call = Reader codec server rights

abbrev start : Cluster
start = record {
  store = (λ k. none, λ k. none);
  version = 0;
  invalidated = λ u. 0;
  readers = λ i. none;
}

abbrev commit_in : Cluster → Cluster
commit_in w = record w { version = suc w.version }

abbrev invalidate_in : Generation → Cluster → Cluster
invalidate_in k w = record w {
  store = invalidate codec server k false w.store;
  invalidated = λ u. if concerns k u then w.version else w.invalidated u;
}

abbrev begin_in : ℕ → ℕ → Cluster → Cluster
begin_in id user_id w = record w {
  readers =
      set_reader codec server rights id
        (some (record { user_id = user_id; phase = begun; since = w.invalidated user_id })) w;
}

abbrev advance_in : ℕ → Call → Cluster → Cluster
advance_in id r w = record w {
  store = (next codec server rights w false r).1;
  readers =
      set_reader codec server rights id
        (some (record r { phase = (next codec server rights w false r).0 })) w;
}

abbrev call : Phase → ℕ → Call
call x since = record { user_id = 7; phase = x; since = since }

abbrev old_key : SnapshotKey
old_key = record { user_id = 7; global_at = 0; user_at = 0 }

abbrev new_key : SnapshotKey
new_key = record { user_id = 7; global_at = 0; user_at = 1 }

-- The first call has loaded.
abbrev has_loaded : Cluster
has_loaded =
    advance_in 0 (call (missed old_key) 0)
      (advance_in 0 (call (keyed old_key) 0) (advance_in 0 (call begun 0) (begin_in 0 7 start)))

-- Then the permission is revoked, and the call writes and returns.
abbrev revoked : Cluster
revoked =
    advance_in 0 (call (loaded old_key (rights 0 7)) 0)
      (invalidate_in (user_gen 7) (commit_in has_loaded))

-- Then another call runs.
abbrev served : Cluster
served = advance_in 1 (call (loaded new_key (rights 1 7)) 1) (
    advance_in 1 (call (missed new_key) 1)
      (advance_in 1 (call (keyed new_key) 1) (advance_in 1 (call begun 1) (begin_in 1 7 revoked))))

has_loaded-Reachable : Reachable codec server rights start has_loaded
unfolding advance
has_loaded-Reachable =
    later
      (later (later (later here (begins 0 7 refl)) (advances 0 (call begun 0) false refl))
        (advances 0 (call (keyed old_key) 0) false refl))
      (advances 0 (call (missed old_key) 0) false refl)

revoked-Reachable : Reachable codec server rights start revoked
unfolding advance
revoked-Reachable =
    later (later (later has_loaded-Reachable commits) (invalidates (user_gen 7)))
      (advances 0 (call (loaded old_key (rights 0 7)) 0) false refl)

served-Reachable : Reachable codec server rights start served
unfolding advance invalidate
served-Reachable =
    later
      (later
        (later
          (later (later revoked-Reachable (begins 1 7 refl)) (advances 1 (call begun 1) false refl))
          (advances 1 (call (keyed new_key) 1) false refl))
        (advances 1 (call (missed new_key) 1) false refl))
      (advances 1 (call (loaded new_key (rights 1 7)) 1) false refl)

-- The stale snapshot lies under the old key.
stale_is_stored : revoked.store.1 old_key ≡ some (rights 0 7)
unfolding advance invalidate
stale_is_stored = refl

Reachable-Serves_example : (m : ℕ) × (rights 1 7 ≡ rights m 7) × (1 ≤ m) × (m ≤ 1)
unfolding advance
Reachable-Serves_example =
    Reachable-Serves codec server rights start served 1 (call (returned (rights 1 7)) 1)
      (rights 1 7) (λ k. refl) (λ i. refl) (λ u. refl) served-Reachable refl refl
