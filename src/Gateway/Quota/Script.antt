-- ===== src/Gateway/Quota/Script.antt =====
-- src/gateway/quota.py: the script _QUOTA_CHECK_LUA, which the server runs as one step.

use janus_server.Prelude.{ℕ, ◌+◌, Bool, ◌&&◌, List, [], ◌∷◌, ◌++◌, ltb, Eq, if◌then◌else◌}
use janus_server.Prelude.Int.{ℤ, pos, ltb_ℤ, same_ℤ}
use janus_server.Core.Redis.Counters.{Counters}
use janus_server.Gateway.Quota.Defs.{QuotaKey}

-- One rule as the script reads it: its key, and its four entries of ARGV.
pub record Rule : Type 0 where
  pub key : QuotaKey
  pub ttl : ℕ
  pub limit : ℕ
  pub enforce : Bool
  pub reserve : ℕ

-- What the script returns: {0, -1, -1}, or {1, index, count}.
pub data Verdict : Type 0 where
  pass : Verdict
  fail : ℕ → ℤ → Verdict

module _ (e : Eq QuotaKey) (redis : Counters QuotaKey e) where
  open redis use {Store, count, incrby, decrby, expire}

  -- The loop of the script that takes back what it added.
  unfoldable pub roll_back : List (QuotaKey × ℕ) → Store → Store
  roll_back [] s = s
  roll_back ((key, amount) ∷ rest) s = roll_back rest (decrby key (pos amount) s)

  -- INCRBY, and EXPIRE if the counter was 0.
  unfoldable pub add_reserve : Rule → Store → Store
  add_reserve rule s =
      let s' = incrby rule.key (pos rule.reserve) s in
      if same_ℤ (count rule.key s') (pos rule.reserve) && ltb 0 rule.ttl
      then expire rule.key rule.ttl s'
      else s'

  -- _QUOTA_CHECK_LUA: the rules from index i on, behind those that are incremented already.
  unfoldable pub check_rules : ℕ → List (QuotaKey × ℕ) → List Rule → Store → Verdict × Store
  unfolding add_reserve roll_back
  check_rules i incremented [] s = (pass, s)
  check_rules i incremented (rule ∷ rest) s =
      let s' = add_reserve rule s in
      let n = count rule.key (incrby rule.key (pos rule.reserve) s) in
      let incremented' = incremented ++ (rule.key, rule.reserve) ∷ [] in
      let others = check_rules (i + 1) incremented' rest s' in
      if rule.enforce && ltb_ℤ (pos rule.limit) n
      then (fail i n, roll_back incremented' s')
      else others

  unfoldable pub quota_check_script : List Rule → Store → Verdict × Store
  unfolding check_rules
  quota_check_script = check_rules 0 []
