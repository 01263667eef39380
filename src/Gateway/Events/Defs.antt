-- ===== src/Gateway/Events/Defs.antt =====
-- src/gateway/events.py: the keys, JSON objects as far as the code looks into them, and claims.
use Prim.Native.String.{String}
use janus_server.Prelude.{ℕ, ◌≡◌, Option, none, some, List, [], ◌∷◌, string_eq, if◌then◌else◌}
use janus_server.Prelude.Int.{ℤ, pos}

pub data QueueKey : Type 0 where
  usage_queue : QueueKey
  log_queue : QueueKey
  usage_inflight : QueueKey
  log_inflight : QueueKey
  usage_dlq : QueueKey
  log_dlq : QueueKey
  billing_dlq : QueueKey

abbrev pub default_batch_size : ℕ
default_batch_size = 100

abbrev pub max_retry_attempts : ℤ
max_retry_attempts = pos 3

abbrev pub default_inflight_stale_seconds : ℕ
default_inflight_stale_seconds = 300

abbrev pub outbox_max_per_queue : ℕ
outbox_max_per_queue = 10000

-- A JSON value over the texts T. `other` stands for the values that the code never looks into.
pub data JsonValue (T : Type 0) : Type 0 where
  text : T → JsonValue T
  number : ℤ → JsonValue T
  nil : JsonValue T
  other : JsonValue T

abbrev pub Dict : Type 0 → Type 0
Dict T = List (String × JsonValue T)

module _ {T : Type 0} where
  unfoldable pub field : String → Dict T → Option (JsonValue T)
  field name [] = none
  field name ((k, v) ∷ rest) =
      let r = field name rest in if string_eq.same k name then some v else r

  -- d[name] = value
  unfoldable pub assign : String → JsonValue T → Dict T → Dict T
  assign name v [] = (name, v) ∷ []
  assign name v ((k, w) ∷ rest) =
      let r = assign name v rest in if string_eq.same k name then (k, v) ∷ rest else (k, w) ∷ r

-- What a JSON reader makes of a text.
pub data Decoded (T : Type 0) : Type 0 where
  dict : Dict T → Decoded T
  scalar : JsonValue T → Decoded T
  undecodable : Decoded T

-- The json module of Python, and cjson and tonumber of Redis. cjson may write the fields of an object
-- in any order: it reads back as `arranged`.
pub record EventCodec (T : Type 0) : Type 0 where
  pub dumps : Dict T → T
  pub loads : T → Decoded T
  pub cjson_encode : Dict T → T
  pub cjson_decode : T → Decoded T
  pub arranged : Dict T → Dict T
  pub show_ms : ℕ → T
  pub tonumber : Option (JsonValue T) → Option ℤ
  -- What RPUSH stores of a value; `none` where it refuses the argument.
  pub argument : JsonValue T → Option T
  -- int(value or 0); `none` where it raises.
  pub int_or_zero : Option (JsonValue T) → Option ℤ
  pub loads-dumps : (d : Dict T) → loads (dumps d) ≡ dict d
  pub loads-cjson_encode : (d : Dict T) → loads (cjson_encode d) ≡ dict (arranged d)
  pub cjson_decode-cjson_encode : (d : Dict T) → cjson_decode (cjson_encode d) ≡ dict (arranged d)
  pub field-arranged : (name : String) (d : Dict T) → field name (arranged d) ≡ field name d
  pub tonumber-show_ms : (ms : ℕ) → tonumber (some (text (show_ms ms))) ≡ some (pos ms)
  pub argument-text : (t : T) → argument (text t) ≡ some t

pub record ClaimedEvent (T : Type 0) : Type 0 where
  pub raw : T
  pub envelope : T

-- The exceptions that the code itself may raise.
pub data EventError : Type 0 where
  attribute_error : EventError
  value_error : EventError
  key_error : EventError
  response_error : EventError
