-- ===== src/Core/Sessions/Once.antt =====
-- A refresh token is accepted at most once.
use Prim.Native.String.{String}
use janus_server.Prelude.{
  ℕ, ◌≡◌, ◌≢◌, refl, ◌∙◌, Option, none, some, List, [], ◌∷◌, All, Eq, string_eq,
}
use janus_server.Prelude.Int.{ℤ}
use janus_server.Core.Redis.{Conn, Result, ok, pure}
use janus_server.Core.Redis.Rules.{command-post, bind-post}
use janus_server.Core.Redis.Records.{Records}
use janus_server.Core.Sessions.Defs.{
  SessionKey, refresh_key, refresh_used_key, Codec, valid, RefreshConsumeResult, reuse_detected,
}
use janus_server.Core.Sessions.Store.{
  consume_refresh, check_replay, replayed, parsed, marked_user, read, getdel, after_getdel,
  revoke_all_sessions,
}
use janus_server.Core.Sessions.Spent.{
  Spent, delete-Spent, create_session-Keeps, is_access_active-Keeps, revoke_access-Keeps,
  revoke_all_sessions-Keeps, consume_refresh-Keeps, list_user_sessions-Keeps,
  list_all_sessions-Keeps, after_getdel-Keeps,
}
use janus_server.Core.Sessions.Runs.{
  Operation, create, active, revoke, revoke_all, consume, list_user, list_all, expires, CreatesNo,
  perform, run,
}

module _ {T : Type 0} (e : Eq SessionKey) (codec : Codec T)
    (redis : Records SessionKey T String e string_eq) where
  open redis use {Store, value, delete, value-delete}

  abbrev Refuses : Result ⊥ RefreshConsumeResult × Conn Store → Type 0
  Refuses o = (r : RefreshConsumeResult) → o.0 ≡ ok r → r.outcome ≢ valid

  replayed-Refuses : (o : Option ℤ) (c : Conn Store) → Refuses (replayed e codec redis o c)
  replayed-Refuses none c = λ r q h. cc
  replayed-Refuses (some u) c =
      bind-post (λ o. Unit {0}) Refuses (revoke_all_sessions e codec redis u)
        (λ _. pure (record { outcome = reuse_detected; user_id = some u; old_access_jti = none })) c
        tt (λ a c' p r q h. cc) (λ x c' p r q h. cc)

  check_replay-Refuses :
      (hash : String) (c : Conn Store) → Refuses (check_replay e codec redis hash c)
  unfolding check_replay
  check_replay-Refuses hash c =
      bind-post (λ o. Unit {0}) Refuses (read e codec redis (value (refresh_used_key hash)))
        (λ raw. replayed e codec redis (marked_user e codec redis (parsed e codec redis raw))) c tt
        (λ raw c' p. replayed-Refuses (marked_user e codec redis (parsed e codec redis raw)) c')
        (λ x c' p r q h. cc)

  module _ (hash : String) where
    consume_refresh-Refuses :
        (ttl : ℕ) (c : Conn Store)
        → Spent e codec redis hash c.store
        → Refuses (consume_refresh e codec redis hash ttl c)
    unfolding consume_refresh
    consume_refresh-Refuses ttl c p =
        bind-post (λ o. (raw : Option T) → o.0 ≡ ok raw → raw ≡ none) Refuses
          (getdel e codec redis (refresh_key hash)) (after_getdel e codec redis hash ttl) c
          (command-post (λ o. (raw : Option T) → o.0 ≡ ok raw → raw ≡ none)
            (λ s. (value (refresh_key hash) s, delete (refresh_key hash) s)) c
            (λ up raw q. cc (p, q)) (λ up raw q. cc))
          (λ raw c' got. after raw c' (got raw refl)) (λ x c' got r q h. cc)
      where
        after :
            (raw : Option T) (c' : Conn Store)
            → raw ≡ none
            → Refuses (after_getdel e codec redis hash ttl raw c')
        after none c' q = check_replay-Refuses hash c'
        after (some raw) c' q = absurd cc

    abbrev Returned-Spent : {A : Type 0} → Result ⊥ A × Conn Store → Type 0
    Returned-Spent {A} o = (r : A) → o.0 ≡ ok r → Spent e codec redis hash o.1.store

    deleted : (s : Store) → Spent e codec redis hash (delete (refresh_key hash) s)
    deleted s =
        value-delete (refresh_key hash) (refresh_key hash) s ∙ rw ((e.same_iff _ _).1 refl) refl

    consume_refresh-Spent :
        (ttl : ℕ) (c : Conn Store) → Returned-Spent (consume_refresh e codec redis hash ttl c)
    unfolding consume_refresh
    consume_refresh-Spent ttl c =
        bind-post Returned-Spent Returned-Spent (getdel e codec redis (refresh_key hash))
          (after_getdel e codec redis hash ttl) c
          (command-post Returned-Spent
            (λ s. (value (refresh_key hash) s, delete (refresh_key hash) s)) c
            (λ up r q. deleted c.store) (λ up r q. absurd cc))
          (λ raw c' got r q.
            (after_getdel-Keeps e codec redis hash hash ttl raw).keeps c' (got raw refl))
          (λ x c' got r q. absurd cc)

    perform-Spent :
        (op : Operation) (c : Conn Store)
        → CreatesNo hash op
        → Spent e codec redis hash c.store
        → Spent e codec redis hash (perform e codec redis op c).store
    perform-Spent (create l) c ne p = (create_session-Keeps e codec redis hash l ne).keeps c p
    perform-Spent (active jti) c ne p = (is_access_active-Keeps e codec redis hash jti).keeps c p
    perform-Spent (revoke jti) c ne p = (revoke_access-Keeps e codec redis hash jti).keeps c p
    perform-Spent (revoke_all u) c ne p = (revoke_all_sessions-Keeps e codec redis hash u).keeps c p
    perform-Spent (consume h ttl) c ne p =
        (consume_refresh-Keeps e codec redis hash h ttl).keeps c p
    perform-Spent (list_user u) c ne p = (list_user_sessions-Keeps e codec redis hash u).keeps c p
    perform-Spent list_all c ne p = (list_all_sessions-Keeps e codec redis hash).keeps c p
    perform-Spent (expires k) c ne p = delete-Spent e codec redis hash k c.store p

    run-Spent :
        (ops : List Operation) (c : Conn Store)
        → All (CreatesNo hash) ops
        → Spent e codec redis hash c.store
        → Spent e codec redis hash (run e codec redis ops c).store
    run-Spent [] c ne p = p
    run-Spent (op ∷ ops) c (ne, nes) p =
        run-Spent ops (perform e codec redis op c) nes (perform-Spent op c ne p)

    -- Once a call of consume_refresh has returned, whatever its outcome, no later call with the same
    -- hash accepts the token: after any calls of the session store that create no session with this
    -- hash, with keys that expire between them and with round trips that fail anywhere, the next call
    -- raises or its outcome is not `valid`.
    pub consume_refresh-once :
        (ttl ttl' : ℕ) (r r' : RefreshConsumeResult) (ops : List Operation) (c : Conn Store)
        → (consume_refresh e codec redis hash ttl c).0 ≡ ok r
        → All (CreatesNo hash) ops
        → (consume_refresh e codec redis hash ttl'
            (run e codec redis ops (consume_refresh e codec redis hash ttl c).1)).0
          ≡ ok r'
        → r'.outcome ≢ valid
    consume_refresh-once ttl ttl' r r' ops c first fresh second =
        consume_refresh-Refuses ttl'
          (run e codec redis ops (consume_refresh e codec redis hash ttl c).1)
          (run-Spent ops (consume_refresh e codec redis hash ttl c).1 fresh
            (consume_refresh-Spent ttl c r first))
          r' second
