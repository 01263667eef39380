-- ===== src/Gateway/RateLimit/SlotGate.antt =====
-- The gate of the semaphore, where no round trip fails.
use janus_server.Prelude.{
  ℕ, ◌*◌, ◌≡◌, refl, inl, inr, Bool, true, false, ◌&&◌, Bool-cases, Option, none, some, List, [],
  Eq, if◌then◌else◌, arith, leb,
}
use janus_server.Prelude.Int.{pos, ◌-ℤ◌}
use janus_server.Core.Redis.{Conn, Client, command, ◌>>=◌, pure, continue}
use janus_server.Core.Redis.Rules.{command-up}
use janus_server.Core.Redis.Windows.{Windows as Sets}
use janus_server.Gateway.RateLimit.Defs.{RateLimitRule}
use janus_server.Gateway.RateLimit.Keys.{RateKey, conc_key_of, concurrent_stale_timeout_seconds}
use janus_server.Gateway.RateLimit.Scripts.{concurrent_check}
use janus_server.Gateway.RateLimit.Gates.{
  Acquired, Step, passed, conc_keys, concurrent_answer, concurrent_gate,
}
use janus_server.Gateway.RateLimit.Releases.{is_key}
use janus_server.Gateway.RateLimit.Rollback.{Noted, Ends, deny-Ends, pruned, added}

module _ {M : Type 0} (e : Eq RateKey) (f : Eq M) (redis : Sets RateKey M e f) (member : M)
    (rules : List RateLimitRule) (estimated_tokens : ℕ) (is_stream : Bool) (now_ms : ℕ)
    (j : RateKey) where
  open redis use {Store, score, zremrangebyscore, score-hset, score-pexpire}

  -- A key of the semaphores is among those that a rollback releases.
  abbrev pub Listed : RateLimitRule → Type 0
  Listed rule =
      (limit : ℕ)
      → rule.max_concurrent ≡ some limit
      → is_key e f redis j (conc_keys e f redis rules) ≡ false
      → e.same j (conc_key_of rule) ≡ false

  and_off : (on y : Bool) → y ≡ false → (on && y) ≡ false
  and_off on y h = ground arith

  concurrent_answer-Ends :
      (rule : RateLimitRule) (limit : ℕ) (a : Acquired) (s : Store)
      → rule.max_concurrent ≡ some limit
      → Listed rule
      → Noted e f redis member rules estimated_tokens is_stream now_ms j a s
      → Ends e f redis member rules estimated_tokens is_stream now_ms j (
          concurrent_answer e f redis member rules estimated_tokens is_stream now_ms a limit
            (concurrent_check e f redis
              (conc_key_of rule)
              now_ms
              limit
              member
              (concurrent_stale_timeout_seconds * 1000)
              s).0
            (record {
              store =
                  (concurrent_check e f redis
                    (conc_key_of rule)
                    now_ms
                    limit
                    member
                    (concurrent_stale_timeout_seconds * 1000)
                    s).1;
              up = [];
            }))
  unfolding concurrent_answer concurrent_check
  concurrent_answer-Ends rule limit a s on listed own =
      let k = conc_key_of rule in
      let b = pos now_ms -ℤ pos (concurrent_stale_timeout_seconds * 1000) in
      let s' = zremrangebyscore k b s in
      let own' = pruned e f redis member rules estimated_tokens is_stream now_ms j a k b s own in
      elim (Bool-cases (leb limit (redis.card k s'))) [
        | inl full ↦
            rw full
              (deny-Ends e f redis member rules estimated_tokens is_stream now_ms j a _ _ refl own')
        | inr free ↦ rw free (
          refl,
          λ x y.
              added e f redis member rules estimated_tokens is_stream now_ms j k 2110000 s'
                (listed limit on y) (own' x (and_off a.concurrent _ y)),
        )
      ]

  pub concurrent_gate-Ends :
      (rule : RateLimitRule) (a : Acquired) (c : Conn Store)
      → Listed rule
      → c.up ≡ []
      → Noted e f redis member rules estimated_tokens is_stream now_ms j a c.store
      → Ends e f redis member rules estimated_tokens is_stream now_ms j
          (concurrent_gate e f redis member rules estimated_tokens is_stream now_ms rule a c)
  unfolding concurrent_gate
  concurrent_gate-Ends rule a c listed up own = go rule.max_concurrent is_stream refl
    where
      go :
          (o : Option ℕ) (stream : Bool)
          → rule.max_concurrent ≡ o
          → Ends e f redis member rules estimated_tokens is_stream now_ms j (
              elim o as (λ o. Client Store ⊥ Step) [
                | none ↦ pure (passed a)
                | some limit ↦
                    if stream
                    then command (
                        concurrent_check e f redis
                          (conc_key_of rule)
                          now_ms
                          limit
                          member
                          (concurrent_stale_timeout_seconds * 1000))
                      >>= concurrent_answer e f redis member rules estimated_tokens is_stream now_ms
                          a limit
                    else pure (passed a)
              ]
                c)
      go none stream on = (up, own)
      go (some limit) false on = (up, own)
      go (some limit) true on =
          command-up
            (λ o. Ends e f redis member rules estimated_tokens is_stream now_ms j (
              continue o.0
                (concurrent_answer e f redis member rules estimated_tokens is_stream now_ms a limit)
                o.1))
            (concurrent_check e f redis (conc_key_of rule) now_ms limit member
              (concurrent_stale_timeout_seconds * 1000))
            c up (concurrent_answer-Ends rule limit a c.store on listed own)
