-- ===== src/Gateway/RateLimit/TokenGate.antt =====
-- The gate of the token bucket, where no round trip fails.
use janus_server.Prelude.{
  ℕ, ◌≡◌, refl, ◌∙◌, inl, inr, Bool, true, false, Bool-cases, Option, none, some, List, [], Eq,
  if◌then◌else◌, ltb,
}
use janus_server.Prelude.Int.{pos, ltb_ℤ}
use janus_server.Core.Redis.{Conn, Client, command, ◌>>=◌, pure, continue}
use janus_server.Core.Redis.Rules.{command-up}
use janus_server.Core.Redis.Windows.{Windows as Sets}
use janus_server.Gateway.RateLimit.Defs.{RateLimitRule}
use janus_server.Gateway.RateLimit.Keys.{RateKey, tpm_key_of, burst_limit, tpm_bucket_ttl_ms}
use janus_server.Gateway.RateLimit.Scripts.{tpm_check, refilled}
use janus_server.Gateway.RateLimit.Gates.{Acquired, Step, passed, tpm_answer, tpm_gate}
use janus_server.Gateway.RateLimit.Rollback.{Noted, Ends, deny-Ends}

module _ {M : Type 0} (e : Eq RateKey) (f : Eq M) (redis : Sets RateKey M e f) (member : M)
    (rules : List RateLimitRule) (estimated_tokens : ℕ) (is_stream : Bool) (now_ms : ℕ)
    (j : RateKey) where
  open redis use {Store, score, zremrangebyscore, score-hset, score-pexpire}

  tpm_answer-Ends :
      (rule : RateLimitRule) (tpm_limit limit : ℕ) (a : Acquired) (s : Store)
      → Noted e f redis member rules estimated_tokens is_stream now_ms j a s
      → Ends e f redis member rules estimated_tokens is_stream now_ms j (
          tpm_answer e f redis member rules estimated_tokens is_stream now_ms rule a
            (tpm_check e f redis
              (tpm_key_of rule)
              now_ms
              limit
              estimated_tokens
              tpm_limit
              tpm_bucket_ttl_ms
              s).0
            (record {
              store =
                  (tpm_check e f redis
                    (tpm_key_of rule)
                    now_ms
                    limit
                    estimated_tokens
                    tpm_limit
                    tpm_bucket_ttl_ms
                    s).1;
              up = [];
            }))
  unfolding tpm_answer tpm_check
  tpm_answer-Ends rule tpm_limit limit a s own =
      elim (Bool-cases (
        ltb_ℤ (refilled e f redis now_ms limit tpm_limit (redis.bucket (tpm_key_of rule) s))
          (pos estimated_tokens))) [
            | inl short ↦ rw short (
                deny-Ends e f redis member rules estimated_tokens is_stream now_ms j a _ _ refl own)
            | inr enough ↦
                rw enough
                  (refl, λ x y. score-pexpire j _ member _ _ ∙ score-hset j _ member _ s ∙ own x y)
          ]

  pub tpm_gate-Ends :
      (rule : RateLimitRule) (a : Acquired) (c : Conn Store)
      → c.up ≡ []
      → Noted e f redis member rules estimated_tokens is_stream now_ms j a c.store
      → Ends e f redis member rules estimated_tokens is_stream now_ms j
          (tpm_gate e f redis member rules estimated_tokens is_stream now_ms rule a c)
  unfolding tpm_gate
  tpm_gate-Ends rule a c up own = go rule.tpm_limit (ltb 0 estimated_tokens)
    where
      go :
          (o : Option ℕ) (wanted : Bool)
          → Ends e f redis member rules estimated_tokens is_stream now_ms j (
              elim o as (λ o. Client Store ⊥ Step) [
                | none ↦ pure (passed a)
                | some tpm_limit ↦
                    if wanted
                    then command (
                        tpm_check e f redis
                          (tpm_key_of rule)
                          now_ms
                          (burst_limit rule tpm_limit)
                          estimated_tokens
                          tpm_limit
                          tpm_bucket_ttl_ms)
                      >>= tpm_answer e f redis member rules estimated_tokens is_stream now_ms rule a
                    else pure (passed a)
              ]
                c)
      go none wanted = (up, own)
      go (some tpm_limit) false = (up, own)
      go (some tpm_limit) true =
          command-up
            (λ o. Ends e f redis member rules estimated_tokens is_stream now_ms j (
              continue o.0
                (tpm_answer e f redis member rules estimated_tokens is_stream now_ms rule a) o.1))
            (tpm_check e f redis (tpm_key_of rule) now_ms (burst_limit rule tpm_limit)
              estimated_tokens tpm_limit tpm_bucket_ttl_ms)
            c up (tpm_answer-Ends rule tpm_limit (burst_limit rule tpm_limit) a c.store own)
