-- ===== src/Gateway/RateLimit/Keys.antt =====
-- src/gateway/rate_limit.py: the keys and the constants of the three gates.
use janus_server.Prelude.Int.{ℤ}
use janus_server.Prelude.{ℕ, Bool, ◌==◌, Option, none, some, if◌then◌else◌}
use janus_server.Gateway.RateLimit.Defs.{RateLimitRule, Subject, subject_key}

-- `rl:rpm:…`, `rl:tpm:…` and `rl:conc:…`, each with the rule's id and its subject.
pub data RateKey : Type 0 where
  rpm_key tpm_key conc_key : ℕ → Subject → RateKey

unfoldable pub rpm_key_of : RateLimitRule → RateKey
unfolding subject_key
rpm_key_of rule = rpm_key rule.id (subject_key rule)

unfoldable pub tpm_key_of : RateLimitRule → RateKey
unfolding subject_key
tpm_key_of rule = tpm_key rule.id (subject_key rule)

unfoldable pub conc_key_of : RateLimitRule → RateKey
unfolding subject_key
conc_key_of rule = conc_key rule.id (subject_key rule)

-- `tpm_burst_limit or tpm_limit`.
unfoldable pub burst_limit : RateLimitRule → ℕ → ℕ
burst_limit rule tpm_limit = elim rule.tpm_burst_limit [
  | none ↦ tpm_limit
  | some burst ↦ if burst == 0 then tpm_limit else burst
]

abbrev pub tpm_bucket_ttl_ms : ℕ
tpm_bucket_ttl_ms = 1860000

abbrev pub concurrent_stale_timeout_seconds : ℕ
concurrent_stale_timeout_seconds = 2100

pub data DeniedReason : Type 0 where
  rpm_exceeded tpm_exceeded concurrent_exceeded degraded_rate_limited : DeniedReason

pub record RateLimitCheckResult : Type 0 where
  pub allowed : Bool
  pub rpm_remaining : Option ℕ
  pub tpm_remaining : Option ℤ
  pub concurrent_remaining : Option ℕ
  pub retry_after_seconds : Option ℕ
  pub denied_reason : Option DeniedReason
