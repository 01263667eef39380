-- ===== src/Auth/PermCache/Defs.antt =====
-- The keys, the cache, and the read path as a machine: one step for each round trip and each load.
use Prim.Native.String.{String}
use janus_server.Prelude.{
  ℕ, ◌+◌, ◌==◌, ◌≡◌, ◌&&◌, Bool, true, false, Option, none, some, List, if◌then◌else◌,
}
use janus_server.Core.Redis.Values.{or_zero}

pub record PermissionSnapshot : Type 0 where
  pub permissions : List String
  pub role_codes : List String

pub data Generation : Type 0 where
  global_gen : Generation
  user_gen : ℕ → Generation

pub record SnapshotKey : Type 0 where
  pub user_id : ℕ
  pub global_at : ℕ
  pub user_at : ℕ

abbrev pub same_key : SnapshotKey → SnapshotKey → Bool
same_key j k = j.user_id == k.user_id && (j.global_at == k.global_at && j.user_at == k.user_at)

abbrev pub same_generation : Generation → Generation → Bool
same_generation global_gen global_gen = true
same_generation global_gen (user_gen v) = false
same_generation (user_gen u) global_gen = false
same_generation (user_gen u) (user_gen v) = u == v

-- What decode makes of a text: a snapshot, an exception that the cache catches, or one that it does
-- not (KeyError).
pub data Decoded : Type 0 where
  decoded : PermissionSnapshot → Decoded
  value_error : Decoded
  key_error : Decoded

pub record SnapshotCodec (T : Type 0) : Type 0 where
  pub encode : PermissionSnapshot → T
  pub decode : T → Decoded
  pub decode-encode : (x : PermissionSnapshot) → decode (encode x) ≡ decoded x

-- Redis: counters that do not expire, and texts that do.
pub record PermStore (T : Type 0) : Type 1 where
  pub Store : Type 0
  pub counter : Generation → Store → Option ℕ
  pub snapshot : SnapshotKey → Store → Option T
  pub incr : Generation → Store → Store
  pub set : SnapshotKey → T → Store → Store
  pub delete : SnapshotKey → Store → Store
  pub counter-incr :
      (j k : Generation) (s : Store)
      → counter j (incr k s)
        ≡ (if same_generation j k then some (or_zero (counter k s) + 1) else counter j s)
  pub snapshot-incr :
      (j : SnapshotKey) (k : Generation) (s : Store) → snapshot j (incr k s) ≡ snapshot j s
  pub counter-set :
      (j : Generation) (k : SnapshotKey) (t : T) (s : Store) → counter j (set k t s) ≡ counter j s
  pub snapshot-set :
      (j k : SnapshotKey) (t : T) (s : Store)
      → snapshot j (set k t s) ≡ (if same_key j k then some t else snapshot j s)
  pub counter-delete :
      (j : Generation) (k : SnapshotKey) (s : Store) → counter j (delete k s) ≡ counter j s
  pub snapshot-delete :
      (j k : SnapshotKey) (s : Store)
      → snapshot j (delete k s) ≡ (if same_key j k then none else snapshot j s)

-- Where a call of load_snapshot stands.
pub data Phase : Type 0 where
  begun : Phase
  -- The generations are read; the cache is to be asked.
  keyed : SnapshotKey → Phase
  -- The cache does not have it: load, and then write under the key.
  missed : SnapshotKey → Phase
  loaded : SnapshotKey → PermissionSnapshot → Phase
  -- A round trip failed: load, and do not write.
  bypassed : Phase
  returned : PermissionSnapshot → Phase
  raised : Phase

module _ {T : Type 0} (codec : SnapshotCodec T) (redis : PermStore T) where
  open redis use {Store, counter, snapshot, incr, set}

  abbrev pub generation : Generation → Store → ℕ
  generation k s = or_zero (counter k s)

  -- _read_generations and _snapshot_key
  abbrev pub current_key : ℕ → Store → SnapshotKey
  current_key user_id s = record {
    user_id = user_id;
    global_at = generation global_gen s;
    user_at = generation (user_gen user_id) s;
  }

  abbrev pub after_decode : SnapshotKey → Decoded → Phase
  after_decode key (decoded x) = returned x
  after_decode key value_error = missed key
  after_decode key key_error = raised

  abbrev pub after_get : SnapshotKey → Option T → Phase
  after_get key none = missed key
  after_get key (some t) = after_decode key (codec.decode t)

  -- The next step of a call for a user; `fails` says whether a round trip raises RedisError. `value`
  -- is what the loader finds in the database.
  unfoldable pub advance : ℕ → Bool → PermissionSnapshot → Phase → Store → Phase × Store
  advance user_id true value begun s = (bypassed, s)
  advance user_id false value begun s = (keyed (current_key user_id s), s)
  advance user_id true value (keyed key) s = (bypassed, s)
  advance user_id false value (keyed key) s = (after_get key (snapshot key s), s)
  advance user_id fails value (missed key) s = (loaded key value, s)
  advance user_id true value (loaded key x) s = (returned x, s)
  advance user_id false value (loaded key x) s = (returned x, set key (codec.encode x) s)
  advance user_id fails value bypassed s = (returned value, s)
  advance user_id fails value (returned x) s = (returned x, s)
  advance user_id fails value raised s = (raised, s)

  unfoldable pub invalidate : Generation → Bool → Store → Store
  invalidate k true s = s
  invalidate k false s = incr k s

  abbrev pub invalidate_user : ℕ → Bool → Store → Store
  invalidate_user user_id = invalidate (user_gen user_id)

  abbrev pub invalidate_all : Bool → Store → Store
  invalidate_all = invalidate global_gen
