-- ===== src/Core/Sessions/Rotation.antt =====
-- The life of a refresh token: created, consumed, submitted again.
use Prim.Native.String.{String}
use janus_server.Prelude.{
  ℕ, ◌≡◌, ◌≢◌, refl, sym, ap, ◌∙◌, true, ◌⊎◌, inl, inr, Option, none, some, List, [], ◌∷◌, Eq,
  string_eq, if◌then◌else◌,
}
use janus_server.Prelude.Int.{ℤ}
use janus_server.Core.Redis.{ok}
use janus_server.Core.Redis.Records.{Records, is_in}
use janus_server.Core.Sessions.Defs.{
  SessionKey, access_key, user_key, refresh_key, refresh_used_key, users_index, Object, get, object,
  Codec, int, as_int, as_str, valid, reuse_detected, RefreshConsumeResult, Login,
}
use janus_server.Core.Sessions.Store.{
  create_session, is_access_active, holds, consume_refresh, check_replay, parse_record,
  refresh_record, access_record,
}
use janus_server.Core.Sessions.Sweep.{apart, value_apart, up_at}
use janus_server.Core.Sessions.Named.{Named}
use janus_server.Core.Sessions.Revoked.{swept, revoke_all_sessions-swept, revoke_all_sessions_lem}

abbrev pub accepted : ℤ → String → RefreshConsumeResult
accepted u jti = record { outcome = valid; user_id = some u; old_access_jti = some jti }

abbrev pub detected : ℤ → RefreshConsumeResult
detected u = record { outcome = reuse_detected; user_id = some u; old_access_jti = none }

module _ {T : Type 0} (e : Eq SessionKey) (codec : Codec T)
    (redis : Records SessionKey T String e string_eq) where
  open redis use {
    Store, value, members, set, delete, sadd, expire, value-set, value-delete, value-sadd,
    value-expire, members-set_ne, members-delete,
  }
  open codec use {dumps, loads, show, loads-dumps}

  same_self : (k : SessionKey) → e.same k k ≡ true
  same_self k = (e.same_iff k k).1 refl

  value-set_self : (k : SessionKey) (t : T) (ex : ℕ) (s : Store) → value k (set k t ex s) ≡ some t
  value-set_self k t ex s = value-set k k t ex s ∙ rw (same_self k) refl

  value-set_apart :
      (j k : SessionKey) (t : T) (ex : ℕ) (s : Store) → j ≢ k → value j (set k t ex s) ≡ value j s
  value-set_apart j k t ex s ne = value-set j k t ex s ∙ rw (apart e codec redis j k ne) refl

  -- Records that stay name what they named.
  Named-moved :
      (other : String) (s s' : Store) (jtis jtis' : List String)
      → jtis' ≡ jtis
      → ((j : String) → value (access_key j) s' ≡ value (access_key j) s)
      → Named e codec redis other jtis s
      → Named e codec redis other jtis' s'
  Named-moved other s s' jtis jtis' same unchanged n = record {
    jti = n.jti;
    raw = n.raw;
    record_of = n.record_of;
    indexed = ap (is_in string_eq n.jti) same ∙ n.indexed;
    there = unchanged n.jti ∙ n.there;
    read = n.read;
    names_it = n.names_it;
  }

  left-Named :
      (other : String) (s : Store) (jtis : List String) (o v : Option T)
      → (Named e codec redis other jtis s × (o ≡ none))
        ⊎ ((Named e codec redis other jtis s → ⊥) × (o ≡ v))
      → Named e codec redis other jtis s
      → o ≡ none
  left-Named other s jtis o v (inl (named, gone)) n = gone
  left-Named other s jtis o v (inr (free, kept)) n = absurd (free n)

  module _ (hash : String) (ttl : ℕ) where
    abbrev taken : ℤ → Store → Store
    taken u s =
        set (refresh_used_key hash) (dumps (("user_id", int u) ∷ [])) ttl
          (delete (refresh_key hash) s)

    consume_refresh-accepted :
        (u : ℤ) (jti : String) (raw : T) (r : Object) (s : Store)
        → value (refresh_key hash) s ≡ some raw
        → loads raw ≡ object r
        → as_int (get "user_id" r) ≡ some u
        → as_str (get "access_jti" r) ≡ some jti
        → consume_refresh e codec redis hash ttl (up_at e codec redis s)
          ≡ (ok (accepted u jti), up_at e codec redis (taken u s))
    unfolding consume_refresh parse_record
    consume_refresh-accepted u jti raw r s there read user old =
        rw there (rw read (rw user (rw old refl)))

    consume_refresh-detected :
        (u : ℤ) (raw : T) (s : Store)
        → value (refresh_key hash) s ≡ none
        → value (refresh_used_key hash) s ≡ some raw
        → loads raw ≡ object (("user_id", int u) ∷ [])
        → consume_refresh e codec redis hash ttl (up_at e codec redis s) ≡ (
          ok (detected u),
          up_at e codec redis (swept e codec redis u (delete (refresh_key hash) s)),
        )
    unfolding consume_refresh check_replay parse_record get
    consume_refresh-detected u raw s gone marked read =
        let mark : value (refresh_used_key hash) (delete (refresh_key hash) s) ≡ some raw =
          value-delete (refresh_used_key hash) (refresh_key hash) s
          ∙ rw (apart e codec redis (refresh_used_key hash) (refresh_key hash) (λ q. cc)) marked in
        rw gone (
          rw mark (
            rw read
              (rw (revoke_all_sessions-swept e codec redis u (delete (refresh_key hash) s)) refl)))

    -- Where no round trip fails, a refresh token whose record names a user and an access token is
    -- accepted with these two. Submitted again, it is reported as reused by that user, and then every
    -- access token that was in the user's index is gone, so is every refresh token that the record of
    -- one of these access tokens names, and the index is empty.
    pub consume_refresh-consume_refresh :
        (u : ℤ) (jti : String) (raw : T) (r : Object) (s : Store)
        → value (refresh_key hash) s ≡ some raw
        → loads raw ≡ object r
        → as_int (get "user_id" r) ≡ some u
        → as_str (get "access_jti" r) ≡ some jti
        → ((consume_refresh e codec redis hash ttl (up_at e codec redis s)).0 ≡ ok (accepted u jti))
          × ((consume_refresh e codec redis hash ttl
                (consume_refresh e codec redis hash ttl (up_at e codec redis s)).1).0
              ≡ ok (detected u))
          × ((j : String)
              → is_in string_eq j (members (user_key u) s) ≡ true
              → value
                  (access_key j)
                  (consume_refresh e codec redis hash ttl
                    (consume_refresh e codec redis hash ttl (up_at e codec redis s)).1).1.store
                ≡ none)
          × ((other : String)
              → Named e codec redis other (members (user_key u) s) s
              → value
                  (refresh_key other)
                  (consume_refresh e codec redis hash ttl
                    (consume_refresh e codec redis hash ttl (up_at e codec redis s)).1).1.store
                ≡ none)
          × (members
                (user_key u)
                (consume_refresh e codec redis hash ttl
                  (consume_refresh e codec redis hash ttl (up_at e codec redis s)).1).1.store
              ≡ [])
    consume_refresh-consume_refresh u jti raw r s there read user old =
        let s' = taken u s in
        let gone : value (refresh_key hash) s' ≡ none =
          value-set_apart (refresh_key hash) (refresh_used_key hash) _ ttl _ (λ q. cc)
          ∙ value-delete (refresh_key hash) (refresh_key hash) s
          ∙ rw (same_self (refresh_key hash)) refl in
        let marked : value (refresh_used_key hash) s' ≡ some (dumps (("user_id", int u) ∷ [])) =
          value-set_self (refresh_used_key hash) _ ttl _ in
        let s'' = delete (refresh_key hash) s' in
        let index : members (user_key u) s'' ≡ members (user_key u) s =
          members-delete (user_key u) (refresh_key hash) s'
          ∙ rw (apart e codec redis (user_key u) (refresh_key hash) (λ q. cc)) (
              members-set_ne (user_key u) (refresh_used_key hash) _ ttl _
                (apart e codec redis (user_key u) (refresh_used_key hash) (λ q. cc)))
          ∙ members-delete (user_key u) (refresh_key hash) s
          ∙ rw (apart e codec redis (user_key u) (refresh_key hash) (λ q. cc)) refl in
        let unchanged : (j : String) → value (access_key j) s'' ≡ value (access_key j) s = λ j.
          (value_apart e codec redis (access_key j) (refresh_key hash) s' (λ q. cc)
            ∙ value-set_apart (access_key j) (refresh_used_key hash) _ ttl _ (λ q. cc)
            ∙ value_apart e codec redis (access_key j) (refresh_key hash) s (λ q. cc)) in
        let (returns, access, refresh, emptied, users) =
          revoke_all_sessions_lem e codec redis u s'' in
        rw (consume_refresh-accepted u jti raw r s there read user old) (
          rw
            (consume_refresh-detected u (dumps (("user_id", int u) ∷ [])) s' gone marked
              (loads-dumps _))
            (
              refl,
              refl,
              λ j h.
                  ap (λ c. value (access_key j) c.1.store)
                    (sym (revoke_all_sessions-swept e codec redis u s''))
                  ∙ access j
                  ∙ ap (λ b. if b then none else value (access_key j) s'')
                      (ap (is_in string_eq j) index ∙ h),
              λ other n.
                  ap (λ c. value (refresh_key other) c.1.store)
                    (sym (revoke_all_sessions-swept e codec redis u s''))
                  ∙ left-Named other s'' (members (user_key u) s'') _ _ (refresh other)
                      (Named-moved other s s'' _ _ index unchanged n),
              ap (λ c. members (user_key u) c.1.store)
                    (sym (revoke_all_sessions-swept e codec redis u s''))
                  ∙ emptied,
            ))

  module _ (l : Login) where
    abbrev created : Store → Store
    created s = sadd users_index (show l.user_id) (
        expire (user_key l.user_id) l.refresh_ttl (
          sadd (user_key l.user_id) l.access_jti (
            set (refresh_key l.refresh_hash) (dumps (refresh_record e codec redis l)) l.refresh_ttl
              (set (access_key l.access_jti) (dumps (access_record e codec redis l)) l.access_ttl
                s))))

    value-created :
        (k : SessionKey) (s : Store)
        → value k (created s)
          ≡ value k (
              set
                (refresh_key l.refresh_hash)
                (dumps (refresh_record e codec redis l))
                l.refresh_ttl
                (set
                  (access_key l.access_jti)
                  (dumps (access_record e codec redis l))
                  l.access_ttl
                  s))
    value-created k s = value-sadd k _ _ _ ∙ value-expire k _ _ _ ∙ value-sadd k _ _ _

    -- Where no round trip fails, creating a session returns, its access token is then active, and its
    -- refresh token is accepted, with the session's user and access token.
    pub consume_refresh-create_session :
        (ttl : ℕ) (s : Store)
        → ((create_session e codec redis l (up_at e codec redis s)).0 ≡ ok tt)
          × ((is_access_active e codec redis l.access_jti
                (create_session e codec redis l (up_at e codec redis s)).1).0
              ≡ ok true)
          × ((consume_refresh e codec redis l.refresh_hash ttl
                (create_session e codec redis l (up_at e codec redis s)).1).0
              ≡ ok (accepted l.user_id l.access_jti))
    unfolding create_session is_access_active get
    consume_refresh-create_session ttl s =
        let access : value (access_key l.access_jti) (created s)
            ≡ some (dumps (access_record e codec redis l)) =
          value-created (access_key l.access_jti) s
          ∙ value-set_apart (access_key l.access_jti) (refresh_key l.refresh_hash) _ _ _ (λ q. cc)
          ∙ value-set_self (access_key l.access_jti) _ _ s in
        let refresh : value (refresh_key l.refresh_hash) (created s)
            ≡ some (dumps (refresh_record e codec redis l)) =
          value-created (refresh_key l.refresh_hash) s
          ∙ value-set_self (refresh_key l.refresh_hash) _ _ _ in
        (
          refl,
          ap (λ o. ok (holds e codec redis o (members (access_key l.access_jti) (created s))))
              access,
          rw
              (consume_refresh-accepted l.refresh_hash ttl l.user_id l.access_jti _ _ (created s)
                refresh (loads-dumps (refresh_record e codec redis l)) refl refl)
              refl,
        )
