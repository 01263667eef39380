-- ===== src/Gateway/Events/Pipeline.antt =====
-- src/gateway/events.py: claims, acknowledgements, retries, the dead-letter queue, and the two Lua
-- scripts. Times are milliseconds of the clock, an argument of the operations that read it.
use janus_server.Prelude.{
  ℕ, zero, suc, ◌+◌, ◌*◌, ◌==◌, Option, none, some, List, [], ◌∷◌, ◌++◌, length, take, Eq,
  if◌then◌else◌,
}
use janus_server.Prelude.Int.{ℤ, pos, ◌+ℤ◌, leb_ℤ, sub_ℕ}
use janus_server.Core.Redis.{Conn, Client, Result, ok, err, pure, raise, command, ◌>>=◌, ◌>>◌}
use janus_server.Core.Redis.Queues.{Queues, rpush, lrem, count_first}
use janus_server.Gateway.Events.Defs.{
  QueueKey, JsonValue, text, number, nil, other, Dict, field, assign, Decoded, dict, scalar,
  undecodable, EventCodec, ClaimedEvent, EventError, attribute_error, value_error, response_error,
}

-- try: m, except Exception: what `handler` says of the exception.
module _ {S E A : Type 0} where
  abbrev pub handled : A → Result E A × Conn S → Result E A × Conn S
  handled fallback (ok a, c) = (ok a, c)
  handled fallback (err x, c) = (ok fallback, c)

  abbrev pub rescue : A → Client S E A → Client S E A
  rescue fallback m c = handled fallback (m c)

-- What _decode_claimed makes of an envelope. A reply that is no JSON object has no `get`.
pub data Claim (T : Type 0) : Type 0 where
  claimed : ClaimedEvent T → Claim T
  skipped : Claim T
  no_get : Claim T

-- What _LUA_RECOVER_STALE finds of one envelope. The script ends with an error at a stale payload
-- that RPUSH refuses.
pub data Fate (T : Type 0) : Type 0 where
  dead : Fate T
  stale : JsonValue T → Fate T
  fresh : Fate T

module _ {T : Type 0} (e : Eq QueueKey) (f : Eq T) (codec : EventCodec T)
    (redis : Queues QueueKey T e) where
  open redis use {Store, items, put}
  open codec use {
    dumps, loads, cjson_encode, cjson_decode, show_ms, tonumber, argument, int_or_zero,
  }

  abbrev pub Events : Type 0 → Type 0
  Events A = Client Store EventError A

  abbrev pub change : (Store → Store) → Events (Unit {0})
  change g = command (λ s. (tt, g s))

  -- _LUA_CLAIM_EVENT
  abbrev pub envelope_of : T → ℕ → T
  envelope_of payload now_ms =
      cjson_encode (("payload", text payload) ∷ ("claimed_at_ms", text (show_ms now_ms)) ∷ [])

  abbrev pub claim_from : QueueKey → QueueKey → ℕ → List T → Store → Option T × Store
  claim_from queue_key inflight_key now_ms [] s = (none, s)
  claim_from queue_key inflight_key now_ms (payload ∷ rest) s = (
    some (envelope_of payload now_ms),
    rpush e f redis inflight_key (envelope_of payload now_ms) (put queue_key rest s),
  )

  unfoldable pub claim_event_script : QueueKey → QueueKey → ℕ → Store → Option T × Store
  claim_event_script queue_key inflight_key now_ms s =
      claim_from queue_key inflight_key now_ms (items queue_key s) s

  abbrev pub claim_payload : T → Option (JsonValue T) → Claim T
  claim_payload envelope (some (text payload)) =
      claimed (record { raw = payload; envelope = envelope })
  claim_payload envelope (some (number n)) = skipped
  claim_payload envelope (some nil) = skipped
  claim_payload envelope (some other) = skipped
  claim_payload envelope none = skipped

  abbrev pub claim_decoded : T → Decoded T → Claim T
  claim_decoded envelope (dict d) = claim_payload envelope (field "payload" d)
  claim_decoded envelope (scalar v) = no_get
  claim_decoded envelope undecodable = skipped

  unfoldable pub decode_claimed : T → Claim T
  decode_claimed envelope = claim_decoded envelope (loads envelope)

  abbrev pub keep_claim : Claim T → Events (List (ClaimedEvent T)) → Events (List (ClaimedEvent T))
  keep_claim (claimed item) rest = do batch ← rest; pure (item ∷ batch)
  keep_claim skipped rest = rest
  keep_claim no_get rest = raise attribute_error

  abbrev pub after_claim :
      Option T → Events (List (ClaimedEvent T)) → Events (List (ClaimedEvent T))
  after_claim none rest = pure []
  after_claim (some envelope) rest = keep_claim (decode_claimed envelope) rest

  -- The loop of claim_batch; `now` is the clock at each round.
  unfoldable pub claim_loop : QueueKey → QueueKey → (ℕ → ℕ) → ℕ → Events (List (ClaimedEvent T))
  unfolding claim_event_script decode_claimed
  claim_loop queue_key inflight_key now zero = pure []
  claim_loop queue_key inflight_key now (suc rounds) = do
    envelope ← command (claim_event_script queue_key inflight_key (now rounds))
    after_claim envelope (claim_loop queue_key inflight_key now rounds)

  unfoldable pub claim_batch : QueueKey → QueueKey → ℕ → (ℕ → ℕ) → Events (List (ClaimedEvent T))
  unfolding claim_loop
  claim_batch queue_key inflight_key batch_size now =
      rescue [] (claim_loop queue_key inflight_key now batch_size)

  abbrev pub reply_lrem : QueueKey → T → Events ℕ
  reply_lrem k t = command (λ s. (count_first f t (items k s), lrem e f redis k t s))

  -- The sum so far is the answer where a round trip fails.
  abbrev pub add_ack :
      ℕ → Result EventError ℕ × Conn Store → (ℕ → Events ℕ) → Result EventError ℕ × Conn Store
  add_ack acked (ok n, c) rest = rest (acked + n) c
  add_ack acked (err x, c) rest = (ok acked, c)

  unfoldable pub ack_loop : QueueKey → List (ClaimedEvent T) → ℕ → Events ℕ
  ack_loop inflight_key [] acked c = pure acked c
  ack_loop inflight_key (item ∷ batch) acked c =
      add_ack acked (reply_lrem inflight_key item.envelope c) (λ n. ack_loop inflight_key batch n)

  unfoldable pub ack_claimed : QueueKey → List (ClaimedEvent T) → Events ℕ
  unfolding ack_loop
  ack_claimed inflight_key batch = ack_loop inflight_key batch 0

  -- _increment_attempt: the payload as an object, then one more attempt; `none` where int raises.
  abbrev pub as_object : T → Decoded T → Dict T
  as_object raw (dict d) = d
  as_object raw (scalar v) = ("raw", v) ∷ []
  as_object raw undecodable = ("raw", text raw) ∷ []

  abbrev pub count_attempt : Dict T → Option ℤ → Option (T × ℤ)
  count_attempt d none = none
  count_attempt d (some n) = some (dumps (assign "_attempt" (number (n +ℤ pos 1)) d), n +ℤ pos 1)

  unfoldable pub increment_attempt : T → Option (T × ℤ)
  unfolding assign field
  increment_attempt raw =
      let d = as_object raw (loads raw) in count_attempt d (int_or_zero (field "_attempt" d))

  abbrev pub requeue :
      QueueKey → QueueKey → QueueKey → ℤ → ClaimedEvent T → Option (T × ℤ) → Events (Unit {0})
  requeue queue_key inflight_key dlq_key max_attempts item none = raise value_error
  requeue queue_key inflight_key dlq_key max_attempts item (some (payload, attempts)) = do
    change (rpush e f redis (if leb_ℤ max_attempts attempts then dlq_key else queue_key) payload)
    change (lrem e f redis inflight_key item.envelope)

  unfoldable pub retry_loop :
      QueueKey → QueueKey → QueueKey → ℤ → List (ClaimedEvent T) → Events (Unit {0})
  unfolding increment_attempt
  retry_loop queue_key inflight_key dlq_key max_attempts [] = pure tt
  retry_loop queue_key inflight_key dlq_key max_attempts (item ∷ batch) = do
    requeue queue_key inflight_key dlq_key max_attempts item (increment_attempt item.raw)
    retry_loop queue_key inflight_key dlq_key max_attempts batch

  unfoldable pub retry_or_dlq_claimed :
      QueueKey → QueueKey → QueueKey → ℤ → List (ClaimedEvent T) → Events (Unit {0})
  unfolding retry_loop
  retry_or_dlq_claimed queue_key inflight_key dlq_key max_attempts batch =
      rescue tt (retry_loop queue_key inflight_key dlq_key max_attempts batch)

  abbrev pub bury : QueueKey → QueueKey → ClaimedEvent T → Events (Unit {0})
  bury inflight_key dlq_key item = do
    change (rpush e f redis dlq_key item.raw)
    change (lrem e f redis inflight_key item.envelope)

  unfoldable pub dlq_loop : QueueKey → QueueKey → List (ClaimedEvent T) → Events (Unit {0})
  dlq_loop inflight_key dlq_key [] = pure tt
  dlq_loop inflight_key dlq_key (item ∷ batch) = do
    bury inflight_key dlq_key item
    dlq_loop inflight_key dlq_key batch

  unfoldable pub dlq_claimed : QueueKey → QueueKey → List (ClaimedEvent T) → Events (Unit {0})
  unfolding dlq_loop
  dlq_claimed inflight_key dlq_key batch = rescue tt (dlq_loop inflight_key dlq_key batch)

  abbrev pub fate_at : ℤ → JsonValue T → Option ℤ → Fate T
  fate_at cutoff_ms payload none = dead
  fate_at cutoff_ms payload (some claimed_at) =
      if leb_ℤ claimed_at cutoff_ms then stale payload else fresh

  abbrev pub fate_of_payload : ℤ → Dict T → Option (JsonValue T) → Fate T
  fate_of_payload cutoff_ms d none = dead
  fate_of_payload cutoff_ms d (some payload) =
      fate_at cutoff_ms payload (tonumber (field "claimed_at_ms" d))

  abbrev pub fate_decoded : ℤ → Decoded T → Fate T
  fate_decoded cutoff_ms (dict d) = fate_of_payload cutoff_ms d (field "payload" d)
  fate_decoded cutoff_ms (scalar v) = dead
  fate_decoded cutoff_ms undecodable = dead

  unfoldable pub fate : ℤ → T → Fate T
  unfolding field
  fate cutoff_ms envelope = fate_decoded cutoff_ms (cjson_decode envelope)

  -- The counts so far, if the script is still running, and the store.
  abbrev pub move : QueueKey → QueueKey → T → T → Store → Store
  move inflight_key target envelope t s =
      lrem e f redis inflight_key envelope (rpush e f redis target t s)

  abbrev pub recover_payload :
      QueueKey → QueueKey → T → Option T → ℕ → ℕ → Store → Option (ℕ × ℕ) × Store
  recover_payload inflight_key queue_key envelope none recovered dlqd s = (none, s)
  recover_payload inflight_key queue_key envelope (some payload) recovered dlqd s =
      (some (recovered + 1, dlqd), move inflight_key queue_key envelope payload s)

  abbrev pub recover_one :
      QueueKey → QueueKey → QueueKey → T → Fate T → ℕ → ℕ → Store → Option (ℕ × ℕ) × Store
  recover_one inflight_key queue_key dlq_key envelope dead recovered dlqd s =
      (some (recovered, dlqd + 1), move inflight_key dlq_key envelope envelope s)
  recover_one inflight_key queue_key dlq_key envelope (stale payload) recovered dlqd s =
      recover_payload inflight_key queue_key envelope (argument payload) recovered dlqd s
  recover_one inflight_key queue_key dlq_key envelope fresh recovered dlqd s =
      (some (recovered, dlqd), s)

  abbrev pub go_on :
      Option (ℕ × ℕ) × Store → (ℕ → ℕ → Store → Option (ℕ × ℕ) × Store) → Option (ℕ × ℕ) × Store
  go_on (none, s) rest = (none, s)
  go_on (some (recovered, dlqd), s) rest = rest recovered dlqd s

  unfoldable pub recover_each :
      QueueKey → QueueKey → QueueKey → ℤ → List T → ℕ → ℕ → Store → Option (ℕ × ℕ) × Store
  unfolding fate
  recover_each inflight_key queue_key dlq_key cutoff_ms [] recovered dlqd s =
      (some (recovered, dlqd), s)
  recover_each inflight_key queue_key dlq_key cutoff_ms (envelope ∷ envelopes) recovered dlqd s =
      go_on
        (recover_one inflight_key queue_key dlq_key envelope (fate cutoff_ms envelope) recovered
          dlqd s)
        (λ r d s'. recover_each inflight_key queue_key dlq_key cutoff_ms envelopes r d s')

  unfoldable pub recover_stale_script :
      QueueKey → QueueKey → QueueKey → ℤ → Store → Option (ℕ × ℕ) × Store
  unfolding recover_each
  recover_stale_script inflight_key queue_key dlq_key cutoff_ms s =
      recover_each inflight_key queue_key dlq_key cutoff_ms (items inflight_key s) 0 0 s

  abbrev pub recovered_count : Option (ℕ × ℕ) → Events ℕ
  recovered_count none = raise response_error
  recovered_count (some (recovered, dlqd)) = pure recovered

  unfoldable pub recover_stale_claims : QueueKey → QueueKey → QueueKey → ℕ → ℕ → Events ℕ
  unfolding recover_stale_script
  recover_stale_claims queue_key inflight_key dlq_key stale_after_seconds now_ms = rescue 0 (do
    reply ← command (
        recover_stale_script inflight_key queue_key dlq_key
          (sub_ℕ now_ms (stale_after_seconds * 1000)))
    recovered_count reply)

  unfoldable pub send_to_dlq : QueueKey → List T → Events (Unit {0})
  send_to_dlq dlq_key [] = pure tt
  send_to_dlq dlq_key (t ∷ ts) = rescue tt (change (λ s. put dlq_key (items dlq_key s ++ t ∷ ts) s))

  unfoldable pub get_queue_length : QueueKey → Events ℕ
  get_queue_length queue_key = rescue 0 (command (λ s. (length (items queue_key s), s)))

  abbrev pub add_readable : Decoded T → List (Decoded T) → List (Decoded T)
  add_readable (dict d) rest = dict d ∷ rest
  add_readable (scalar v) rest = scalar v ∷ rest
  add_readable undecodable rest = rest

  -- What json.loads reads of the items; those that it cannot read are passed over.
  abbrev pub readable : List T → List (Decoded T)
  readable [] = []
  readable (raw ∷ raws) = add_readable (loads raw) (readable raws)

  -- LRANGE from 0 to count - 1; where count is 0 this is -1, the last item.
  unfoldable pub peek_dlq : QueueKey → ℕ → Events (List (Decoded T))
  peek_dlq dlq_key count = rescue [] (do
    raw_items ←
        command (λ s. (if count == 0 then items dlq_key s else take count (items dlq_key s), s))
    pure (readable raw_items))

  unfoldable pub flush_dlq : QueueKey → Events ℕ
  flush_dlq dlq_key = rescue 0 (do
    length ← command (λ s. (length (items dlq_key s), s))
    change (put dlq_key [])
    pure length)
