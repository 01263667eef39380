-- ===== src/Core/Sessions/Store.antt =====
-- src/core/session_store.py, the class SessionStore. A method is a client of Redis.
use Prim.Native.String.{String}
use janus_server.Prelude.{
  ℕ, Bool, true, false, Option, none, some, List, [], ◌∷◌, ◌++◌, Eq, string_eq, if◌then◌else◌,
}
use janus_server.Prelude.Int.{ℤ}
use janus_server.Core.Redis.{Client, pure, command, ◌>>=◌, ◌>>◌}
use janus_server.Core.Redis.Records.{Records}
use janus_server.Core.Sessions.Defs.{
  SessionKey, access_key, user_key, refresh_key, refresh_used_key, users_index, str, int, Object,
  get, Loaded, object, not_an_object, value_error, Codec, as_int, as_str, nullable, valid, invalid,
  reuse_detected, RefreshConsumeResult, SessionInfo, Login,
}

abbrev pub result_of : Loaded → Option Object
result_of (object o) = some o
result_of not_an_object = none
result_of value_error = none

abbrev pub refused : RefreshConsumeResult
refused = record { outcome = invalid; user_id = none; old_access_jti = none }

module _ {T : Type 0} (e : Eq SessionKey) (codec : Codec T)
    (redis : Records SessionKey T String e string_eq) where
  open redis use {Store, value, members, set, delete, sadd, srem, expire}

  abbrev pub Session : Type 0 → Type 0
  Session A = Client Store ⊥ A

  abbrev pub send : (Store → Store) → Session (Unit {0})
  send f = command (λ s. (tt, f s))

  abbrev pub read : {A : Type 0} → (Store → A) → Session A
  read f = command (λ s. (f s, s))

  -- EXISTS of a key that holds a text, or a set.
  abbrev pub holds : Option T → List String → Bool
  holds (some t) ms = true
  holds none [] = false
  holds none (m ∷ ms) = true

  abbrev pub is_there : SessionKey → Store → Bool
  is_there k s = holds (value k s) (members k s)

  abbrev pub getdel : SessionKey → Session (Option T)
  getdel k = command (λ s. (value k s, delete k s))

  unfoldable pub parse_record : T → Option Object
  parse_record raw = result_of (codec.loads raw)

  abbrev pub access_record : Login → Object
  access_record l =
      ("user_id", int l.user_id)
      ∷ ("refresh_hash", str l.refresh_hash)
      ∷ ("ip", nullable l.ip)
      ∷ ("user_agent", nullable l.user_agent)
      ∷ ("login_at", str l.login_at)
      ∷ []

  abbrev pub refresh_record : Login → Object
  refresh_record l = ("user_id", int l.user_id) ∷ ("access_jti", str l.access_jti) ∷ []

  unfoldable pub create_session : Login → Session (Unit {0})
  create_session l = do
    send (set (access_key l.access_jti) (codec.dumps (access_record l)) l.access_ttl)
    send (set (refresh_key l.refresh_hash) (codec.dumps (refresh_record l)) l.refresh_ttl)
    send (sadd (user_key l.user_id) l.access_jti)
    send (expire (user_key l.user_id) l.refresh_ttl)
    send (sadd users_index (codec.show l.user_id))

  unfoldable pub is_access_active : String → Session Bool
  is_access_active access_jti = read (is_there (access_key access_jti))

  unfoldable pub prune_user_index : ℤ → Session (Unit {0})
  prune_user_index user_id = do
    remaining ← read (is_there (user_key user_id))
    if remaining then pure tt else send (srem users_index (codec.show user_id))

  -- What revoke_access does to the index of a record's user.
  abbrev pub leave_index : String → Option ℤ → Session (Unit {0})
  leave_index access_jti none = pure tt
  leave_index access_jti (some user_id) = do
    send (srem (user_key user_id) access_jti)
    prune_user_index user_id

  abbrev pub delete_refresh : Option String → Session (Unit {0})
  delete_refresh none = pure tt
  delete_refresh (some refresh_hash) = send (delete (refresh_key refresh_hash))

  abbrev pub revoke_record : String → Option Object → Session (Unit {0})
  revoke_record access_jti none = pure tt
  revoke_record access_jti (some record_of) = do
    leave_index access_jti (as_int (get "user_id" record_of))
    delete_refresh (as_str (get "refresh_hash" record_of))

  abbrev pub parsed : Option T → Option Object
  parsed none = none
  parsed (some raw) = parse_record raw

  unfoldable pub revoke_access : String → Session (Unit {0})
  unfolding parse_record
  revoke_access access_jti = do
    raw ← read (value (access_key access_jti))
    send (delete (access_key access_jti))
    revoke_record access_jti (parsed raw)

  abbrev pub bound_refresh : Option Object → Option String
  bound_refresh none = none
  bound_refresh (some record_of) = as_str (get "refresh_hash" record_of)

  -- One round of the loop of revoke_all_sessions.
  unfoldable pub revoke_one : String → Session (Unit {0})
  unfolding parse_record
  revoke_one jti = do
    raw ← read (value (access_key jti))
    send (delete (access_key jti))
    delete_refresh (bound_refresh (parsed raw))

  unfoldable pub revoke_each : List String → Session (Unit {0})
  unfolding revoke_one
  revoke_each [] = pure tt
  revoke_each (jti ∷ jtis) = do revoke_one jti; revoke_each jtis

  unfoldable pub revoke_all_sessions : ℤ → Session (Unit {0})
  unfolding revoke_each
  revoke_all_sessions user_id = do
    jtis ← read (members (user_key user_id))
    revoke_each jtis
    send (delete (user_key user_id))
    send (srem users_index (codec.show user_id))

  -- The refresh record was taken: its fields decide.
  abbrev pub consumed : String → ℕ → Option ℤ → Option String → Session RefreshConsumeResult
  consumed refresh_hash used_marker_ttl (some user_id) (some old_access_jti) = do
    send (
        set (refresh_used_key refresh_hash) (codec.dumps (("user_id", int user_id) ∷ []))
          used_marker_ttl)
    pure (record { outcome = valid; user_id = some user_id; old_access_jti = some old_access_jti })
  consumed refresh_hash used_marker_ttl (some user_id) none = pure refused
  consumed refresh_hash used_marker_ttl none old_access_jti = pure refused

  abbrev pub consume_record : String → ℕ → Option Object → Session RefreshConsumeResult
  consume_record refresh_hash used_marker_ttl none = pure refused
  consume_record refresh_hash used_marker_ttl (some record_of) =
      consumed refresh_hash used_marker_ttl (as_int (get "user_id" record_of))
        (as_str (get "access_jti" record_of))

  abbrev pub marked_user : Option Object → Option ℤ
  marked_user none = none
  marked_user (some used) = as_int (get "user_id" used)

  abbrev pub replayed : Option ℤ → Session RefreshConsumeResult
  replayed none = pure refused
  replayed (some user_id) = do
    revoke_all_sessions user_id
    pure (record { outcome = reuse_detected; user_id = some user_id; old_access_jti = none })

  -- No refresh record was there: either it was consumed before, or it never was one.
  unfoldable pub check_replay : String → Session RefreshConsumeResult
  unfolding revoke_all_sessions parse_record
  check_replay refresh_hash = do
    used_raw ← read (value (refresh_used_key refresh_hash))
    replayed (marked_user (parsed used_raw))

  abbrev pub after_getdel : String → ℕ → Option T → Session RefreshConsumeResult
  after_getdel refresh_hash used_marker_ttl none = check_replay refresh_hash
  after_getdel refresh_hash used_marker_ttl (some raw) =
      consume_record refresh_hash used_marker_ttl (parse_record raw)

  unfoldable pub consume_refresh : String → ℕ → Session RefreshConsumeResult
  unfolding check_replay parse_record
  consume_refresh refresh_hash used_marker_ttl = do
    raw ← getdel (refresh_key refresh_hash)
    after_getdel refresh_hash used_marker_ttl raw

  abbrev pub or_empty : Option String → String
  or_empty none = ""
  or_empty (some t) = t

  abbrev pub to_session_info : String → ℤ → Object → SessionInfo
  to_session_info access_jti user_id record_of = record {
    access_jti = access_jti;
    user_id = user_id;
    ip = as_str (get "ip" record_of);
    user_agent = as_str (get "user_agent" record_of);
    login_at = or_empty (as_str (get "login_at" record_of));
  }

  -- One round of the loop of list_user_sessions.
  abbrev pub list_entry : ℤ → String → Option T → Session (List SessionInfo)
  list_entry user_id jti none = do send (srem (user_key user_id) jti); pure []
  list_entry user_id jti (some raw) = elim (parse_record raw) [
    | none ↦ pure []
    | some record_of ↦ pure (to_session_info jti user_id record_of ∷ [])
  ]

  unfoldable pub list_each : ℤ → List String → Session (List SessionInfo)
  unfolding parse_record
  list_each user_id [] = pure []
  list_each user_id (jti ∷ jtis) = do
    raw ← read (value (access_key jti))
    found ← list_entry user_id jti raw
    rest ← list_each user_id jtis
    pure (found ++ rest)

  unfoldable pub list_user_sessions : ℤ → Session (List SessionInfo)
  unfolding list_each prune_user_index
  list_user_sessions user_id = do
    jtis ← read (members (user_key user_id))
    sessions ← list_each user_id jtis
    prune_user_index user_id
    pure sessions

  abbrev pub listed_user : String → List SessionInfo → Session (List SessionInfo)
  listed_user raw_uid [] = do send (srem users_index raw_uid); pure []
  listed_user raw_uid (x ∷ xs) = pure (x ∷ xs)

  -- One round of the loop of list_all_sessions.
  abbrev pub list_round : String → Option ℤ → Session (List SessionInfo)
  list_round raw_uid none = do send (srem users_index raw_uid); pure []
  list_round raw_uid (some uid) = do
    user_sessions ← list_user_sessions uid
    listed_user raw_uid user_sessions

  unfoldable pub list_users : List String → Session (List SessionInfo)
  unfolding list_user_sessions
  list_users [] = pure []
  list_users (raw_uid ∷ user_ids) = do
    found ← list_round raw_uid (codec.read raw_uid)
    rest ← list_users user_ids
    pure (found ++ rest)

  unfoldable pub list_all_sessions : Session (List SessionInfo)
  unfolding list_users
  list_all_sessions = do user_ids ← read (members users_index); list_users user_ids
