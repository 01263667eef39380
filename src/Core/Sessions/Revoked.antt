-- ===== src/Core/Sessions/Revoked.antt =====
-- What is gone after all sessions of a user were revoked, and what is left.
use Prim.Native.String.{String}
use janus_server.Prelude.{
  ◌≡◌, refl, ap, ◌∙◌, true, not, ◌&&◌, ◌⊎◌, none, [], Eq, string_eq, if◌then◌else◌,
}
use janus_server.Prelude.Int.{ℤ}
use janus_server.Core.Redis.{ok}
use janus_server.Core.Redis.Records.{Records, is_in}
use janus_server.Core.Sessions.Defs.{
  SessionKey, access_key, user_key, refresh_key, users_index, Codec,
}
use janus_server.Core.Sessions.Store.{revoke_all_sessions}
use janus_server.Core.Sessions.Sweep.{
  apart, value_apart, sweep, up_at, revoke_each-sweep, sweep-access, sweep-refresh, sweep-members,
}
use janus_server.Core.Sessions.Named.{Named, left_of}

module _ {T : Type 0} (e : Eq SessionKey) (codec : Codec T)
    (redis : Records SessionKey T String e string_eq) where
  open redis use {
    Store, value, members, delete, srem, value-srem, members-delete, members-srem_ne, is_in-srem,
  }

  module _ (u : ℤ) where
    abbrev pub swept : Store → Store
    swept s =
        srem users_index (codec.show u)
          (delete (user_key u) (sweep e codec redis (members (user_key u) s) s))

    pub revoke_all_sessions-swept :
        (s : Store)
        → revoke_all_sessions e codec redis u (up_at e codec redis s)
          ≡ (ok tt, up_at e codec redis (swept s))
    unfolding revoke_all_sessions
    revoke_all_sessions-swept s =
        rw (revoke_each-sweep e codec redis (members (user_key u) s) s) refl

    same_self : (k : SessionKey) → e.same k k ≡ true
    same_self k = (e.same_iff k k).1 refl

    -- Where no round trip fails, revoke_all_sessions returns. It deletes the access tokens in the
    -- user's index and no others. It deletes a refresh token exactly if the record of one of these
    -- access tokens is still there, can be read and names it as its refresh_hash: the refresh token of
    -- a session whose access record has expired stays. The user's index is gone, and the user leaves the index of users, where the
    -- others stay.
    pub revoke_all_sessions_lem :
        (s : Store)
        → ((revoke_all_sessions e codec redis u (up_at e codec redis s)).0 ≡ ok tt)
          × ((jti : String)
              → value
                  (access_key jti)
                  (revoke_all_sessions e codec redis u (up_at e codec redis s)).1.store
                ≡ (if is_in string_eq jti (members (user_key u) s)
                    then none
                    else value (access_key jti) s))
          × ((hash : String)
              → (Named e codec redis hash (members (user_key u) s) s
                  × (value
                        (refresh_key hash)
                        (revoke_all_sessions e codec redis u (up_at e codec redis s)).1.store
                      ≡ none))
                ⊎ ((Named e codec redis hash (members (user_key u) s) s → ⊥)
                    × (value
                          (refresh_key hash)
                          (revoke_all_sessions e codec redis u (up_at e codec redis s)).1.store
                        ≡ value (refresh_key hash) s)))
          × (members
                (user_key u)
                (revoke_all_sessions e codec redis u (up_at e codec redis s)).1.store
              ≡ [])
          × ((m : String)
              → is_in string_eq m (
                  members users_index
                    (revoke_all_sessions e codec redis u (up_at e codec redis s)).1.store)
                ≡ (not (string_eq.same m (codec.show u))
                    && is_in string_eq m (members users_index s)))
    revoke_all_sessions_lem s =
        let jtis = members (user_key u) s in
        let s' = sweep e codec redis jtis s in
        rw (revoke_all_sessions-swept s) (
          refl,
          λ jti.
              value-srem (access_key jti) users_index (codec.show u) (delete (user_key u) s')
              ∙ value_apart e codec redis (access_key jti) (user_key u) s' (λ q. cc)
              ∙ sweep-access e codec redis jti jtis s,
          λ hash. left_of e codec redis hash jtis s _ (
              value-srem (refresh_key hash) users_index (codec.show u) (delete (user_key u) s')
              ∙ value_apart e codec redis (refresh_key hash) (user_key u) s' (λ q. cc)
              ∙ sweep-refresh e codec redis hash jtis s),
          members-srem_ne (user_key u) users_index (codec.show u) (delete (user_key u) s')
                (apart e codec redis (user_key u) users_index (λ q. cc))
              ∙ members-delete (user_key u) (user_key u) s'
              ∙ ap (λ b. if b then [] else members (user_key u) s') (same_self (user_key u)),
          λ m.
              is_in-srem users_index m (codec.show u) (delete (user_key u) s')
              ∙ ap (λ l. not (string_eq.same m (codec.show u)) && is_in string_eq m l)
                  (members-delete users_index (user_key u) s'
                    ∙ ap (λ b. if b then [] else members users_index s')
                        (apart e codec redis users_index (user_key u) (λ q. cc))
                    ∙ sweep-members e codec redis users_index jtis s (λ h q. cc) (λ j q. cc)),
        )
