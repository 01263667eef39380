-- ===== src/Gateway/Quota/Defs.antt =====
-- The data of src/gateway/quota.py and of the quota rows (src/enums.py, src/db/models/quota.py).
use Prim.Native.String.{String}
use janus_server.Prelude.{ℕ, ◌/◌, Bool, Option, List, suc}
use janus_server.Prelude.Int.{ℤ, pos, negsuc, sub_ℕ}

-- The columns are strings: a value of the enum, or any other text.
pub data QuotaMetric : Type 0 where
  tokens requests cost : QuotaMetric
  other_metric : String → QuotaMetric

pub data QuotaScope : Type 0 where
  user department global : QuotaScope
  other_scope : String → QuotaScope

pub data QuotaPeriod : Type 0 where
  daily monthly total : QuotaPeriod
  other_period : String → QuotaPeriod

-- A Decimal is a whole number of 10 ^ -12 parts: a price of six places times a token count,
-- divided by a million.
abbrev pub Decimal : Type 0
Decimal = ℤ

-- `int(x * 1_000_000)`, and int(x) for x in millionths: both drop the last six places, towards 0.
unfoldable pub int_micro : ℤ → ℤ
int_micro (pos n) = pos (n / 1000000)
int_micro (negsuc n) = sub_ℕ 0 (suc n / 1000000)

-- `limit_value` has six places, and the admin schema takes positive values only: it is counted in
-- millionths.
pub record Quota : Type 0 where
  pub id : ℕ
  pub scope : QuotaScope
  pub scope_id : Option ℕ
  pub logical_model_id : Option ℕ
  pub period : QuotaPeriod
  pub metric : QuotaMetric
  pub limit_value : ℕ
  pub enforce : Bool

-- What `strftime` makes of a day, for each period.
pub data PeriodKey : Type 0 where
  day_key : ℕ → ℕ → ℕ → PeriodKey
  month_key : ℕ → ℕ → PeriodKey
  total_key : PeriodKey

-- One constructor for each format string of `_key_for_quota`. A department may be missing from a
-- key: the text is `None` then.
pub data QuotaKey : Type 0 where
  user_key : ℕ → ℕ → PeriodKey → QuotaMetric → QuotaKey
  department_key : Option ℕ → ℕ → PeriodKey → QuotaMetric → QuotaKey
  global_key : ℕ → PeriodKey → QuotaMetric → QuotaKey

-- `current` and `limit` are Decimals in millionths.
pub record QuotaWarning : Type 0 where
  pub quota_id : ℕ
  pub metric : QuotaMetric
  pub period : QuotaPeriod
  pub current : ℤ
  pub limit : ℕ

pub record QuotaReservation : Type 0 where
  pub key : QuotaKey
  pub quota_id : ℕ
  pub metric : QuotaMetric
  pub scope : QuotaScope
  pub enforce : Bool
  pub limit_value : ℕ
  pub reserved : ℕ

pub record QuotaCheckResult : Type 0 where
  pub passed : Bool
  pub warnings : List QuotaWarning
  pub reservations : List QuotaReservation

-- QuotaLimitExceeded, with the QuotaExceeded that it carries; the IndexError of a list.
pub data QuotaError : Type 0 where
  limit_exceeded : Quota → ℤ → QuotaError
  index_error : QuotaError
