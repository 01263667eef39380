-- ===== src/Core/Sessions/Spent.antt =====
-- A refresh token is spent by the first call that looks at it.
use Prim.Native.String.{String}
use janus_server.Prelude.{
  ℕ, ◌≡◌, ◌≢◌, refl, ◌∙◌, inl, inr, Bool, true, false, Bool-cases, Option, none, some, List, [],
  ◌∷◌, ◌++◌, Eq, string_eq, if◌then◌else◌,
}
use janus_server.Prelude.Int.{ℤ}
use janus_server.Core.Redis.{Client, pure, ◌>>=◌}
use janus_server.Core.Redis.Rules.{Keeps, pure-Keeps, command-Keeps, bind-Keeps}
use janus_server.Core.Redis.Records.{Records}
use janus_server.Core.Sessions.Defs.{
  SessionKey, access_key, user_key, refresh_key, refresh_used_key, users_index, Object, get, Codec,
  as_int, as_str, SessionInfo, Login,
}
use janus_server.Core.Sessions.Store.{
  create_session, is_access_active, revoke_access, revoke_one, revoke_each, revoke_all_sessions,
  consume_refresh, check_replay, consume_record, consumed, replayed, marked_user, parsed,
  parse_record, leave_index, delete_refresh, revoke_record, prune_user_index, list_each, list_entry,
  list_user_sessions, list_round, listed_user, list_users, list_all_sessions, send, read, is_there,
  after_getdel, bound_refresh, to_session_info,
}

refresh_key-inj : {g h : String} → refresh_key g ≡ refresh_key h → g ≡ h
refresh_key-inj q = cc

module _ {T : Type 0} (e : Eq SessionKey) (codec : Codec T)
    (redis : Records SessionKey T String e string_eq) where
  open redis use {
    Store, value, members, set, delete, sadd, srem, expire, value-set, value-delete, value-sadd,
    value-srem, value-expire,
  }

  module _ (hash : String) where
    abbrev pub Spent : Store → Type 0
    Spent s = value (refresh_key hash) s ≡ none

    spent_if : (b : Bool) (o : Option T) → o ≡ none → (if b then none else o) ≡ none
    spent_if true o p = refl
    spent_if false o p = p

    pub delete-Spent : (k : SessionKey) (s : Store) → Spent s → Spent (delete k s)
    delete-Spent k s p = value-delete (refresh_key hash) k s ∙ spent_if _ _ p

    pub set-Spent :
        (k : SessionKey) (t : T) (ex : ℕ) (s : Store)
        → refresh_key hash ≢ k
        → Spent s
        → Spent (set k t ex s)
    set-Spent k t ex s ne p = elim (Bool-cases (e.same (refresh_key hash) k)) [
      | inl same ↦ absurd (ne ((e.same_iff _ _).0 same))
      | inr other ↦ value-set (refresh_key hash) k t ex s ∙ rw other p
    ]

    send_delete-Keeps : (k : SessionKey) → Keeps Spent (send e codec redis (delete k))
    send_delete-Keeps k = command-Keeps Spent _ (delete-Spent k)

    send_srem-Keeps : (k : SessionKey) (m : String) → Keeps Spent (send e codec redis (srem k m))
    send_srem-Keeps k m = command-Keeps Spent _ (λ s p. value-srem (refresh_key hash) k m s ∙ p)

    read-Keeps : {A : Type 0} (f : Store → A) → Keeps Spent (read e codec redis f)
    read-Keeps f = command-Keeps Spent _ (λ s p. p)

    pub is_access_active-Keeps : (jti : String) → Keeps Spent (is_access_active e codec redis jti)
    unfolding is_access_active
    is_access_active-Keeps jti = read-Keeps (is_there e codec redis (access_key jti))

    prune_user_index-Keeps : (u : ℤ) → Keeps Spent (prune_user_index e codec redis u)
    unfolding prune_user_index
    prune_user_index-Keeps u = bind-Keeps Spent _ _ (read-Keeps _) next
      where
        next :
            (remaining : Bool)
            → Keeps Spent (
                if remaining then pure tt else send e codec redis (srem users_index (codec.show u)))
        next true = pure-Keeps Spent tt
        next false = send_srem-Keeps users_index (codec.show u)

    delete_refresh-Keeps : (o : Option String) → Keeps Spent (delete_refresh e codec redis o)
    delete_refresh-Keeps none = pure-Keeps Spent tt
    delete_refresh-Keeps (some h) = send_delete-Keeps (refresh_key h)

    leave_index-Keeps :
        (jti : String) (o : Option ℤ) → Keeps Spent (leave_index e codec redis jti o)
    leave_index-Keeps jti none = pure-Keeps Spent tt
    leave_index-Keeps jti (some u) =
        bind-Keeps Spent _ _ (send_srem-Keeps (user_key u) jti) (λ _. prune_user_index-Keeps u)

    revoke_record-Keeps :
        (jti : String) (o : Option Object) → Keeps Spent (revoke_record e codec redis jti o)
    revoke_record-Keeps jti none = pure-Keeps Spent tt
    revoke_record-Keeps jti (some r) =
        bind-Keeps Spent _ _ (leave_index-Keeps jti (as_int (get "user_id" r)))
          (λ _. delete_refresh-Keeps (as_str (get "refresh_hash" r)))

    pub revoke_access-Keeps : (jti : String) → Keeps Spent (revoke_access e codec redis jti)
    unfolding revoke_access
    revoke_access-Keeps jti = bind-Keeps Spent _ _ (read-Keeps _) (λ raw.
        bind-Keeps Spent _ _ (send_delete-Keeps (access_key jti))
          (λ _. revoke_record-Keeps jti (parsed e codec redis raw)))

    revoke_one-Keeps : (jti : String) → Keeps Spent (revoke_one e codec redis jti)
    unfolding revoke_one
    revoke_one-Keeps jti = bind-Keeps Spent _ _ (read-Keeps _) (λ raw.
        bind-Keeps Spent _ _ (send_delete-Keeps (access_key jti))
          (λ _. delete_refresh-Keeps (bound_refresh e codec redis (parsed e codec redis raw))))

    revoke_each-Keeps : (jtis : List String) → Keeps Spent (revoke_each e codec redis jtis)
    unfolding revoke_each
    revoke_each-Keeps [] = pure-Keeps Spent tt
    revoke_each-Keeps (jti ∷ jtis) =
        bind-Keeps Spent (revoke_one e codec redis jti) (λ _. revoke_each e codec redis jtis)
          (revoke_one-Keeps jti) (λ _. revoke_each-Keeps jtis)

    pub revoke_all_sessions-Keeps : (u : ℤ) → Keeps Spent (revoke_all_sessions e codec redis u)
    unfolding revoke_all_sessions
    revoke_all_sessions-Keeps u = bind-Keeps Spent _ _ (read-Keeps _) (λ jtis.
        bind-Keeps Spent _ _ (revoke_each-Keeps jtis) (λ _.
          bind-Keeps Spent _ _ (send_delete-Keeps (user_key u))
            (λ _. send_srem-Keeps users_index (codec.show u))))

    pub replayed-Keeps : (o : Option ℤ) → Keeps Spent (replayed e codec redis o)
    replayed-Keeps none = (pure-Keeps Spent _)
    replayed-Keeps (some u) =
        bind-Keeps Spent _ _ (revoke_all_sessions-Keeps u) (λ _. (pure-Keeps Spent _))

    pub check_replay-Keeps : (h : String) → Keeps Spent (check_replay e codec redis h)
    unfolding check_replay
    check_replay-Keeps h =
        bind-Keeps Spent _ _ (read-Keeps _)
          (λ raw. replayed-Keeps (marked_user e codec redis (parsed e codec redis raw)))

    consumed-Keeps :
        (h : String) (ttl : ℕ) (u : Option ℤ) (jti : Option String)
        → Keeps Spent (consumed e codec redis h ttl u jti)
    consumed-Keeps h ttl (some u) (some jti) =
        bind-Keeps Spent _ _
          (command-Keeps Spent _ (λ s. set-Spent (refresh_used_key h) _ ttl s (λ q. cc)))
          (λ _. (pure-Keeps Spent _))
    consumed-Keeps h ttl (some u) none = (pure-Keeps Spent _)
    consumed-Keeps h ttl none jti = (pure-Keeps Spent _)

    consume_record-Keeps :
        (h : String) (ttl : ℕ) (o : Option Object)
        → Keeps Spent (consume_record e codec redis h ttl o)
    consume_record-Keeps h ttl none = (pure-Keeps Spent _)
    consume_record-Keeps h ttl (some r) =
        consumed-Keeps h ttl (as_int (get "user_id" r)) (as_str (get "access_jti" r))

    pub after_getdel-Keeps :
        (h : String) (ttl : ℕ) (o : Option T) → Keeps Spent (after_getdel e codec redis h ttl o)
    after_getdel-Keeps h ttl none = check_replay-Keeps h
    after_getdel-Keeps h ttl (some raw) =
        consume_record-Keeps h ttl (parse_record e codec redis raw)

    pub consume_refresh-Keeps :
        (h : String) (ttl : ℕ) → Keeps Spent (consume_refresh e codec redis h ttl)
    unfolding consume_refresh
    consume_refresh-Keeps h ttl =
        bind-Keeps Spent _ _ (command-Keeps Spent _ (delete-Spent (refresh_key h)))
          (after_getdel-Keeps h ttl)

    send_set-Keeps :
        (k : SessionKey) (t : T) (ex : ℕ)
        → refresh_key hash ≢ k
        → Keeps Spent (send e codec redis (set k t ex))
    send_set-Keeps k t ex ne = command-Keeps Spent _ (λ s. set-Spent k t ex s ne)

    send_sadd-Keeps : (k : SessionKey) (m : String) → Keeps Spent (send e codec redis (sadd k m))
    send_sadd-Keeps k m = command-Keeps Spent _ (λ s p. value-sadd (refresh_key hash) k m s ∙ p)

    send_expire-Keeps : (k : SessionKey) (t : ℕ) → Keeps Spent (send e codec redis (expire k t))
    send_expire-Keeps k t = command-Keeps Spent _ (λ s p. value-expire (refresh_key hash) k t s ∙ p)

    pub create_session-Keeps :
        (l : Login) → hash ≢ l.refresh_hash → Keeps Spent (create_session e codec redis l)
    unfolding create_session
    create_session-Keeps l ne =
        bind-Keeps Spent _ _ (send_set-Keeps (access_key l.access_jti) _ _ (λ q. cc)) (λ _.
          bind-Keeps Spent _ _
            (send_set-Keeps (refresh_key l.refresh_hash) _ _ (λ q. ne (refresh_key-inj q)))
            (λ _. bind-Keeps Spent _ _ (send_sadd-Keeps (user_key l.user_id) l.access_jti) (λ _.
              bind-Keeps Spent _ _ (send_expire-Keeps (user_key l.user_id) l.refresh_ttl)
                (λ _. send_sadd-Keeps users_index (codec.show l.user_id)))))

    list_entry-Keeps :
        (u : ℤ) (jti : String) (o : Option T) → Keeps Spent (list_entry e codec redis u jti o)
    list_entry-Keeps u jti none =
        bind-Keeps Spent _ _ (send_srem-Keeps (user_key u) jti) (λ _. pure-Keeps Spent _)
    list_entry-Keeps u jti (some raw) = go (parse_record e codec redis raw)
      where
        go :
            (o : Option Object)
            → Keeps Spent (elim o as (λ o. Client Store ⊥ (List SessionInfo)) [
              | none ↦ pure []
              | some r ↦ pure (to_session_info e codec redis jti u r ∷ [])
            ])
        go none = pure-Keeps Spent []
        go (some r) = pure-Keeps Spent (to_session_info e codec redis jti u r ∷ [])

    list_each-Keeps : (u : ℤ) (jtis : List String) → Keeps Spent (list_each e codec redis u jtis)
    unfolding list_each
    list_each-Keeps u [] = pure-Keeps Spent _
    list_each-Keeps u (jti ∷ jtis) =
        bind-Keeps Spent (read e codec redis (value (access_key jti)))
          (λ raw. list_entry e codec redis u jti raw >>= λ found.
            list_each e codec redis u jtis >>= λ rest. pure (found ++ rest))
          (read-Keeps _)
          (λ raw.
            bind-Keeps Spent (list_entry e codec redis u jti raw)
              (λ found. list_each e codec redis u jtis >>= λ rest. pure (found ++ rest))
              (list_entry-Keeps u jti raw)
              (λ found.
                bind-Keeps Spent (list_each e codec redis u jtis) (λ rest. pure (found ++ rest))
                  (list_each-Keeps u jtis) (λ rest. pure-Keeps Spent _)))

    pub list_user_sessions-Keeps : (u : ℤ) → Keeps Spent (list_user_sessions e codec redis u)
    unfolding list_user_sessions
    list_user_sessions-Keeps u = bind-Keeps Spent _ _ (read-Keeps _) (λ jtis.
        bind-Keeps Spent _ _ (list_each-Keeps u jtis)
          (λ found. bind-Keeps Spent _ _ (prune_user_index-Keeps u) (λ _. pure-Keeps Spent _)))

    listed_user-Keeps :
        (m : String) (l : List SessionInfo) → Keeps Spent (listed_user e codec redis m l)
    listed_user-Keeps m [] =
        bind-Keeps Spent _ _ (send_srem-Keeps users_index m) (λ _. pure-Keeps Spent _)
    listed_user-Keeps m (x ∷ xs) = pure-Keeps Spent _

    list_round-Keeps : (m : String) (o : Option ℤ) → Keeps Spent (list_round e codec redis m o)
    list_round-Keeps m none =
        bind-Keeps Spent _ _ (send_srem-Keeps users_index m) (λ _. pure-Keeps Spent _)
    list_round-Keeps m (some u) =
        bind-Keeps Spent _ _ (list_user_sessions-Keeps u) (listed_user-Keeps m)

    list_users-Keeps : (ms : List String) → Keeps Spent (list_users e codec redis ms)
    unfolding list_users
    list_users-Keeps [] = pure-Keeps Spent _
    list_users-Keeps (m ∷ ms) =
        bind-Keeps Spent (list_round e codec redis m (codec.read m))
          (λ found. list_users e codec redis ms >>= λ rest. pure (found ++ rest))
          (list_round-Keeps m (codec.read m))
          (λ found.
            bind-Keeps Spent (list_users e codec redis ms) (λ rest. pure (found ++ rest))
              (list_users-Keeps ms) (λ rest. pure-Keeps Spent _))

    pub list_all_sessions-Keeps : Keeps Spent (list_all_sessions e codec redis)
    unfolding list_all_sessions
    list_all_sessions-Keeps = bind-Keeps Spent _ _ (read-Keeps _) list_users-Keeps
