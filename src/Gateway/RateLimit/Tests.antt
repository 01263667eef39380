-- ===== src/Gateway/RateLimit/Tests.antt =====
-- Runs of the gates, of the limiter and of the estimate.
use Prim.Native.String.{String}
use Prim.Native.Char.{Char}
use janus_server.Prelude.{
  ℕ, ◌+◌, ◌-◌, ◌≤◌, ◌≡◌, refl, false, none, some, List, [], ◌∷◌, Eq, discrete_eq, eq_discrete,
  string_eq, nat_eq, ℕ_discrete, All, arith,
}
use janus_server.Prelude.Int.{pos, negsuc, ◌+ℤ◌, ◌-ℤ◌}
use janus_server.Core.Redis.Windows.{Windows as Sets}
use janus_server.Core.Redis.Sets.{plain_sets}
use janus_server.Gateway.RateLimit.Defs.{RateLimitRule, Subject, subject_key}
use janus_server.Gateway.RateLimit.Keys.{RateKey, rpm_key, tpm_key}
use janus_server.Gateway.RateLimit.Estimate.{str, estimate_request_tokens}
use janus_server.Gateway.RateLimit.Shapes.{
  prompt, chat_message, chat_blocks, gemini_content, responses_item,
  estimate_request_tokens-bounded, estimate_request_tokens-shapes,
}
use janus_server.Gateway.RateLimit.Scripts.{rpm_check, tpm_check, tpm_settle, refilled}
use janus_server.Gateway.RateLimit.Gates.{check_rate_limits}
use janus_server.Gateway.RateLimit.Denials.{check_rate_limits-denied}
use janus_server.Gateway.RateLimit.Buckets.{rpm_check-card, tpm_settle-tpm_check}
use janus_server.Gateway.RateLimit.Repayment.{Repays, tpm_settle-Repays}
use janus_server.Gateway.RateLimit.Emergency.{
  no_windows, window_index, current_count, emergency_admit,
}
use janus_server.Gateway.RateLimit.Degraded.{
  carried, counted, admitted, InWindow, emergency_admit-counted, emergency_admit-capped,
}

abbrev String_discrete : Discrete String
String_discrete = eq_discrete string_eq

abbrev Subject-discrete : Discrete Subject
Subject-discrete = hlevel (ℕ_discrete, String_discrete)

abbrev RateKey-discrete : Discrete RateKey
RateKey-discrete = hlevel (ℕ_discrete, Subject-discrete)

abbrev subject_eq : Eq Subject
subject_eq = discrete_eq Subject-discrete

abbrev key_eq : Eq RateKey
key_eq = discrete_eq RateKey-discrete

abbrev server : Sets RateKey ℕ key_eq nat_eq
server = plain_sets nat_eq key_eq

-- Two rules: the first lets five requests in each minute in, the second one.
abbrev wide : RateLimitRule
wide = record {
  id = 1;
  subject_type = "user";
  subject_id = some 7;
  logical_model_id = none;
  rpm_limit = some 5;
  tpm_limit = none;
  tpm_burst_limit = none;
  max_concurrent = none;
}

abbrev narrow : RateLimitRule
narrow = record {
  id = 2;
  subject_type = "global";
  subject_id = none;
  logical_model_id = none;
  rpm_limit = some 1;
  tpm_limit = none;
  tpm_burst_limit = none;
  max_concurrent = none;
}

-- Every window holds one entry, of the member 1.
abbrev busy : server.Store
busy = (λ k. (1, 1000) ∷ [], λ k. none, λ k. none)

turned_away :
    (check_rate_limits key_eq nat_eq server 2
      (wide ∷ narrow ∷ [])
      100
      false
      2000
      subject_eq
      no_windows
      (record { store = busy; up = [] })).0.allowed
    ≡ false
unfolding check_rate_limits ℕ_discrete ◌-ℤ◌
turned_away = refl

check_rate_limits-denied_example :
    server.score
      (rpm_key 1 (subject_key wide))
      2
      (check_rate_limits key_eq nat_eq server 2
        (wide ∷ narrow ∷ [])
        100
        false
        2000
        subject_eq
        no_windows
        (record { store = busy; up = [] })).2.store
    ≡ none
check_rate_limits-denied_example =
    check_rate_limits-denied key_eq nat_eq server 2 (wide ∷ narrow ∷ []) 100 false 2000
      (rpm_key 1 (subject_key wide)) subject_eq no_windows busy refl turned_away

abbrev window_key : RateKey
window_key = rpm_key 1 (record { subject_type = "user"; subject_id = 7; model_id = 0 })

rpm_check-card_example :
    server.card window_key (rpm_check key_eq nat_eq server window_key 2000 60000 5 2 busy).1 ≤ 5
unfolding rpm_check ℕ_discrete ◌-ℤ◌
rpm_check-card_example = rpm_check-card key_eq nat_eq server window_key 2000 60000 5 2 busy refl

-- A bucket of 1000 tokens, from which 400 are taken and given back.
abbrev bucket_key : RateKey
bucket_key = tpm_key 1 (record { subject_type = "user"; subject_id = 7; model_id = 0 })

tpm_settle-tpm_check_example :
    refilled key_eq nat_eq server 2000 1000 600 (
      server.bucket bucket_key
        (tpm_settle key_eq nat_eq server bucket_key
          (pos 400)
          1000
          9
          600
          (tpm_check key_eq nat_eq server bucket_key 2000 1000 400 600 9 busy).1).1)
    ≡ refilled key_eq nat_eq server 2000 1000 600 none
unfolding tpm_check refilled ◌+ℤ◌ ◌-ℤ◌ ℕ_discrete
tpm_settle-tpm_check_example =
    tpm_settle-tpm_check key_eq nat_eq server bucket_key 2000 1000 400 600 9 9 busy refl

-- The bucket holds 3 tokens, of which 5000 are owed after the settlement.
abbrev poor : server.Store
poor = (λ k. [], λ k. some (record { tokens = some (pos 3); ts = some 2000 }), λ k. none)

tpm_settle-Repays_example :
    Repays key_eq nat_eq server bucket_key 1860000 7
      (tpm_settle key_eq nat_eq server bucket_key (negsuc 5002) 1000 1860000 7 poor).1
unfolding tpm_settle
tpm_settle-Repays_example =
    tpm_settle-Repays key_eq nat_eq server bucket_key (negsuc 5002) 1000 1860000 7 poor
      (omega arith) refl

abbrev wide_subject : Subject
wide_subject = record { subject_type = "user"; subject_id = 7; model_id = 0 }

emergency_admit-counted_example :
    current_count
      (window_index 120000)
      (emergency_admit subject_eq (wide ∷ wide ∷ []) 120000 no_windows).1
      wide_subject
    ≡ 0
      + counted subject_eq wide_subject
          (emergency_admit subject_eq (wide ∷ wide ∷ []) 120000 no_windows).0
          (wide ∷ wide ∷ [])
unfolding current_count
emergency_admit-counted_example =
    emergency_admit-counted subject_eq wide_subject (wide ∷ wide ∷ []) 120000 no_windows

abbrev burst : List (List RateLimitRule × ℕ)
burst = (wide ∷ narrow ∷ [], 120000) ∷ (wide ∷ [], 150000) ∷ (narrow ∷ wide ∷ [], 179999) ∷ []

burst-InWindow : All (InWindow subject_eq wide_subject 2 5) burst
unfolding window_index carried subject_key janus_server.Gateway.RateLimit.Emergency.degraded_cap
    ℕ_discrete
burst-InWindow = (
  (refl, omega arith, ((λ h. refl), ((λ h. absurd cc), tt))),
  (
    (refl, omega arith, ((λ h. refl), tt)),
    ((refl, omega arith, ((λ h. absurd cc), ((λ h. refl), tt))), tt),
  ),
)

emergency_admit-capped_example :
    admitted subject_eq wide_subject burst no_windows ≤ 5 - current_count 2 no_windows wide_subject
emergency_admit-capped_example =
    emergency_admit-capped subject_eq wide_subject 2 5 burst no_windows burst-InWindow

abbrev hello : List Char
hello = "h" ∷ "i" ∷ []

estimate_request_tokens-bounded_example :
    (100 ≤ estimate_request_tokens (prompt gemini_content (hello ∷ [])) (negsuc 3))
    × (estimate_request_tokens (prompt gemini_content (hello ∷ [])) (negsuc 3) ≤ 204000)
estimate_request_tokens-bounded_example =
    estimate_request_tokens-bounded (prompt gemini_content (hello ∷ [])) (negsuc 3)

estimate_request_tokens-shapes_example :
    All
      (λ f.
        estimate_request_tokens (prompt f (hello ∷ hello ∷ [])) (pos 50)
        ≡ estimate_request_tokens (prompt str (hello ∷ hello ∷ [])) (pos 50))
      (chat_message ∷ chat_blocks ∷ gemini_content ∷ responses_item ∷ [])
estimate_request_tokens-shapes_example =
    estimate_request_tokens-shapes (hello ∷ hello ∷ []) (pos 50)
