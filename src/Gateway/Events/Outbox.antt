-- ===== src/Gateway/Events/Outbox.antt =====
-- src/gateway/events.py: enqueue_event and the outbox of one process for the time that Redis is down.
use janus_server.Prelude.{ℕ, leb, Bool, true, false, List, [], ◌∷◌, ◌++◌, length, Eq, if◌then◌else◌}
use janus_server.Prelude.Int.{ℤ}
use janus_server.Core.Redis.{Conn, Client, Result, ok, err, late_command}
use janus_server.Core.Redis.Queues.{Queues, rpush}
use janus_server.Gateway.Events.Defs.{
  QueueKey, usage_queue, log_queue, billing_dlq, outbox_max_per_queue, JsonValue, text, number,
  Dict, EventCodec, EventError,
}

-- deque(maxlen=n): an append to a full deque drops the first item.
module _ {ℓ} {T : Type ℓ} where
  abbrev pub tail : List T → List T
  tail [] = []
  tail (x ∷ xs) = xs

  unfoldable pub append : ℕ → T → List T → List T
  append maxlen t box = if leb maxlen (length box) then tail (box ++ t ∷ []) else box ++ t ∷ []

-- `ran` says of a round trip that raises whether the server has served it all the same.
module _ {T : Type 0} (e : Eq QueueKey) (f : Eq T) (codec : EventCodec T)
    (redis : Queues QueueKey T e) (ran : Conn redis.Store → Bool) where
  open redis use {Store, items}

  -- The outboxes of the process, and the connection.
  pub record Process : Type 0 where
    pub outboxes : QueueKey → List T
    pub conn : Conn Store

  abbrev pub push : QueueKey → T → Client Store EventError (Unit {0})
  push queue_key t = late_command ran (λ s. (tt, rpush e f redis queue_key t s))

  abbrev pub set_box : QueueKey → List T → (QueueKey → List T) → QueueKey → List T
  set_box k box boxes j = if e.same j k then box else boxes j

  -- A push that fails puts its item back in front and ends the loop.
  abbrev pub after_push :
      T
      → List T
      → Result EventError (Unit {0}) × Conn Store
      → (Conn Store → Bool × List T × Conn Store)
      → Bool × List T × Conn Store
  after_push item box (ok u, c) rest = rest c
  after_push item box (err x, c) rest = (false, item ∷ box, c)

  -- The loop of _flush_outbox: whether no push failed, what is left in the box, the connection.
  unfoldable pub flush_box : QueueKey → List T → Conn Store → Bool × List T × Conn Store
  flush_box queue_key [] c = (true, [], c)
  flush_box queue_key (item ∷ box) c =
      after_push item box (push queue_key item c) (λ c'. flush_box queue_key box c')

  -- The `except` of enqueue_event.
  abbrev pub park : QueueKey → T → (QueueKey → List T) → List T → Conn Store → Bool × Process
  park queue_key t boxes box c = (
    false,
    record { outboxes = set_box queue_key (append outbox_max_per_queue t box) boxes; conn = c },
  )

  abbrev pub after_last :
      QueueKey
      → T
      → (QueueKey → List T)
      → List T
      → Result EventError (Unit {0}) × Conn Store
      → Bool × Process
  after_last queue_key t boxes box (ok u, c) =
      (true, record { outboxes = set_box queue_key box boxes; conn = c })
  after_last queue_key t boxes box (err x, c) = park queue_key t boxes box c

  abbrev pub after_flush :
      QueueKey → T → (QueueKey → List T) → Bool × List T × Conn Store → Bool × Process
  after_flush queue_key t boxes (true, box, c) =
      after_last queue_key t boxes box (push queue_key t c)
  after_flush queue_key t boxes (false, box, c) = park queue_key t boxes box c

  unfoldable pub enqueue_event : QueueKey → Dict T → Process → Bool × Process
  unfolding flush_box append
  enqueue_event queue_key payload p =
      after_flush queue_key (codec.dumps payload) p.outboxes
        (flush_box queue_key (p.outboxes queue_key) p.conn)

  unfoldable pub enqueue_usage_event : Dict T → Process → Bool × Process
  unfolding enqueue_event
  enqueue_usage_event = enqueue_event usage_queue

  unfoldable pub enqueue_log_event : Dict T → Process → Bool × Process
  unfolding enqueue_event
  enqueue_log_event = enqueue_event log_queue

  -- `detail or {}` is an argument as it is written; the event goes to a queue of its own.
  unfoldable pub record_billing_failure :
      T → JsonValue T → T → JsonValue T → ℤ → Process → Bool × Process
  unfolding enqueue_event
  record_billing_failure kind request_id error detail recorded_at_ms = enqueue_event billing_dlq (
      ("kind", text kind)
      ∷ ("request_id", request_id)
      ∷ ("error", text error)
      ∷ ("detail", detail)
      ∷ ("recorded_at_ms", number recorded_at_ms)
      ∷ [])

  abbrev pub outbox_size : QueueKey → Process → ℕ
  outbox_size queue_key p = length (p.outboxes queue_key)

  abbrev pub reset_outbox : Process → Process
  reset_outbox p = record p { outboxes = λ k. [] }
