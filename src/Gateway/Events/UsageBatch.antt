-- ===== src/Gateway/Events/UsageBatch.antt =====
-- src/gateway/usage_batch.py: claimed usage events become rows of the database.
use janus_server.Prelude.{ℕ, suc, ◌≡◌, Option, none, some, List, [], ◌∷◌, Eq, if◌then◌else◌}
use janus_server.Prelude.Int.{pos}
use janus_server.Core.Redis.{ok, pure, ◌>>=◌, ◌>>◌}
use janus_server.Core.Redis.Records.{is_in}
use janus_server.Core.Redis.Queues.{Queues}
use janus_server.Gateway.Events.Defs.{
  QueueKey, usage_queue, usage_inflight, usage_dlq, default_batch_size,
  default_inflight_stale_seconds, max_retry_attempts, JsonValue, text, number, nil, Dict, field,
  Decoded, dict, scalar, undecodable, EventCodec, ClaimedEvent,
}
use janus_server.Gateway.Events.Pipeline.{
  Events, claim_batch, ack_claimed, retry_or_dlq_claimed, dlq_claimed, recover_stale_claims,
}

-- The database, beside Redis in one store, and the Python functions that a row needs.
pub record Ledger (T : Type 0) (e : Eq QueueKey) (redis : Queues QueueKey T e) : Type 1 where
  -- The number of new rows; `none` where the insertion raises, and then its transaction is undone.
  pub insert_ignore_conflicts : List (Dict T) → redis.Store → Option (ℕ × redis.Store)
  -- The database has taken these rows: each is there, or another row with its request_id is.
  pub Took : List (Dict T) → redis.Store → Type 0
  -- str(request_id), if it is true.
  pub truthy_text : Option (JsonValue T) → Option T
  -- Decimal(cost); `none` where it raises.
  pub decimal : JsonValue T → Option (JsonValue T)
  pub error_status : T
  -- The ids that next_id hands out.
  pub next_id : ℕ → ℕ
  -- A key that is missing has no request_id.
  pub truthy_text-none : truthy_text none ≡ none
  pub Took-insert :
      (rows : List (Dict T)) (n : ℕ) (s s' : redis.Store)
      → insert_ignore_conflicts rows s ≡ some (n, s')
      → Took rows s'
  pub Took_before :
      (earlier rows : List (Dict T)) (n : ℕ) (s s' : redis.Store)
      → insert_ignore_conflicts rows s ≡ some (n, s')
      → Took earlier s
      → Took earlier s'
  pub items-insert :
      (k : QueueKey) (rows : List (Dict T)) (n : ℕ) (s s' : redis.Store)
      → insert_ignore_conflicts rows s ≡ some (n, s')
      → redis.items k s' ≡ redis.items k s
  pub Took-put :
      (rows : List (Dict T)) (k : QueueKey) (l : List T) (s : redis.Store)
      → Took rows s
      → Took rows (redis.put k l s)

module _ {T : Type 0} where
  abbrev pub or_default : JsonValue T → Option (JsonValue T) → JsonValue T
  or_default v none = v
  or_default v (some w) = w

module _ {T : Type 0} (e : Eq QueueKey) (redis : Queues QueueKey T e)
    (ledger : Ledger T e redis) where
  open ledger use {insert_ignore_conflicts, truthy_text, decimal, error_status, next_id}

  abbrev pub cost_of : Option (JsonValue T) → JsonValue T
  cost_of none = nil
  cost_of (some v) = or_default nil (decimal v)

  abbrev pub usage_row : ℕ → Dict T → JsonValue T → JsonValue T → Dict T
  usage_row i d user_id logical_model_id =
      ("id", number (pos (next_id i)))
      ∷ ("user_id", user_id)
      ∷ ("api_key_id", or_default nil (field "api_key_id" d))
      ∷ ("logical_model_id", logical_model_id)
      ∷ ("channel_id", or_default nil (field "channel_id" d))
      ∷ ("upstream_model", or_default nil (field "upstream_model" d))
      ∷ ("prompt_tokens", or_default (number (pos 0)) (field "prompt_tokens" d))
      ∷ ("completion_tokens", or_default (number (pos 0)) (field "completion_tokens" d))
      ∷ ("total_tokens", or_default (number (pos 0)) (field "total_tokens" d))
      ∷ ("cost", cost_of (field "cost" d))
      ∷ ("status", or_default (text error_status) (field "status" d))
      ∷ ("latency_ms", or_default nil (field "latency_ms" d))
      ∷ ("request_id", or_default nil (field "request_id" d))
      ∷ ("downgraded_features", or_default nil (field "downgraded_features" d))
      ∷ []

  -- `none` where a key that must be there is missing (KeyError).
  abbrev pub row_with : ℕ → Dict T → Option (JsonValue T) → Option (JsonValue T) → Option (Dict T)
  row_with i d (some user_id) (some logical_model_id) =
      some (usage_row i d user_id logical_model_id)
  row_with i d (some user_id) none = none
  row_with i d none logical_model_id = none

  unfoldable pub to_usage_row : ℕ → Dict T → Option (Dict T)
  unfolding field
  to_usage_row i d = row_with i d (field "user_id" d) (field "logical_model_id" d)

  abbrev pub add_row : Option (Dict T) → Option (List (Dict T)) → Option (List (Dict T))
  add_row (some row) (some rows) = some (row ∷ rows)
  add_row (some row) none = none
  add_row none rows = none

  abbrev pub rows_step :
      Eq T
      → Option T
      → List T
      → Option (Dict T)
      → Option (List (Dict T))
      → (List T → ℕ → Option (List (Dict T)))
      → ℕ
      → Option (List (Dict T))
  rows_step f none seen row skip rest i = add_row row (rest seen (suc i))
  rows_step f (some request_id) seen row skip rest i =
      if is_in f request_id seen then skip else add_row row (rest (request_id ∷ seen) (suc i))

  -- The loop of _bulk_insert_usage; `i` counts the rows so far.
  unfoldable pub rows_of : Eq T → List (Dict T) → List T → ℕ → Option (List (Dict T))
  unfolding to_usage_row
  rows_of f [] seen i = some []
  rows_of f (record_of ∷ records) seen i =
      rows_step f (truthy_text (field "request_id" record_of)) seen (to_usage_row i record_of)
        (rows_of f records seen i) (λ seen' j. rows_of f records seen' j) i

module _ {T : Type 0} (e : Eq QueueKey) (f : Eq T) (codec : EventCodec T)
    (redis : Queues QueueKey T e) (ledger : Ledger T e redis) where
  open redis use {Store}
  open codec use {loads}

  -- The records of a batch, the claims that they came from, and the claims without a record.
  pub record Sorted : Type 0 where
    pub records : List (Dict T)
    pub valid_claims : List (ClaimedEvent T)
    pub unparseable : List (ClaimedEvent T)

  abbrev pub sort_one : ClaimedEvent T → Decoded T → Sorted → Sorted
  sort_one item (dict d) rest = record rest {
    records = d ∷ rest.records;
    valid_claims = item ∷ rest.valid_claims;
  }
  sort_one item (scalar v) rest = record rest { unparseable = item ∷ rest.unparseable }
  sort_one item undecodable rest = record rest { unparseable = item ∷ rest.unparseable }

  unfoldable pub sort_claims : List (ClaimedEvent T) → Sorted
  sort_claims [] = record { records = []; valid_claims = []; unparseable = [] }
  sort_claims (item ∷ batch) = sort_one item (loads item.raw) (sort_claims batch)

  -- The transaction of the database. It is no round trip to Redis.
  abbrev pub commit_rows : Option (ℕ × Store) → Events e f codec redis (Option ℕ)
  commit_rows none c = (ok none, c)
  commit_rows (some (written, s)) c = (ok (some written), record c { store = s })

  abbrev pub insert_rows : Option (List (Dict T)) → Events e f codec redis (Option ℕ)
  insert_rows none c = (ok none, c)
  insert_rows (some rows) c = commit_rows (ledger.insert_ignore_conflicts rows c.store) c

  -- `none` where _bulk_insert_usage raises.
  unfoldable pub bulk_insert_usage : List (Dict T) → Events e f codec redis (Option ℕ)
  unfolding rows_of
  bulk_insert_usage records = insert_rows (rows_of e redis ledger f records [] 0)

  abbrev pub after_insert : List (ClaimedEvent T) → Option ℕ → Events e f codec redis ℕ
  after_insert valid_claims none = do
    retry_or_dlq_claimed e f codec redis usage_queue usage_inflight usage_dlq max_retry_attempts
        valid_claims
    pure 0
  after_insert valid_claims (some written) = do
    ack_claimed e f codec redis usage_inflight valid_claims
    pure written

  abbrev pub write_records : List (Dict T) → List (ClaimedEvent T) → Events e f codec redis ℕ
  write_records [] valid_claims = pure 0
  write_records (d ∷ ds) valid_claims = bulk_insert_usage (d ∷ ds) >>= after_insert valid_claims

  unfoldable pub settle_batch : List (ClaimedEvent T) → Events e f codec redis ℕ
  unfolding sort_claims bulk_insert_usage
  settle_batch batch =
      let sorted = sort_claims batch in
      dlq_claimed e f codec redis usage_inflight usage_dlq sorted.unparseable
      >> write_records sorted.records sorted.valid_claims

  -- `now_ms` is the clock at the start, `now` the clock at each claim.
  unfoldable pub flush_usage_records : ℕ → (ℕ → ℕ) → Events e f codec redis ℕ
  unfolding settle_batch
  flush_usage_records now_ms now = do
    recover_stale_claims e f codec redis usage_queue usage_inflight usage_dlq
        default_inflight_stale_seconds now_ms
    claimed ← claim_batch e f codec redis usage_queue usage_inflight default_batch_size now
    settle_batch claimed
