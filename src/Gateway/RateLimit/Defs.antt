-- ===== src/Gateway/RateLimit/Defs.antt =====
-- The rules that src/gateway/rate_limit.py checks, as src/gateway/service.py hands them over.
use Prim.Native.String.{String}
use mathlib.Core.Option
use janus_server.Prelude.{ℕ, Option}

-- Every field is there, as a column that may be null; limits are positive, by the admin schema.
pub record RateLimitRule : Type 0 where
  pub id : ℕ
  pub subject_type : String
  pub subject_id : Option ℕ
  pub logical_model_id : Option ℕ
  pub rpm_limit : Option ℕ
  pub tpm_limit : Option ℕ
  pub tpm_burst_limit : Option ℕ
  pub max_concurrent : Option ℕ

-- The fields of the text `{subject_type}:{subject_id}:m:{model_id}`.
pub record Subject : Type 0 where
  pub subject_type : String
  pub subject_id : ℕ
  pub model_id : ℕ

unfoldable pub subject_key : RateLimitRule → Subject
subject_key rule = record {
  subject_type = rule.subject_type;
  subject_id = Option.get_or rule.subject_id 0;
  model_id = Option.get_or rule.logical_model_id 0;
}
