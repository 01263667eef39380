-- ===== src/Gateway/Events/Flush.antt =====
-- The batch writer as a whole keeps every usage event.
use janus_server.Prelude.{ℕ, ◌≡◌, refl, ap, ◌∙◌, Option, none, some, List, [], ◌∷◌, All, Eq}
use janus_server.Core.Redis.{Conn, Result, ok, pure, ◌>>=◌}
use janus_server.Core.Redis.Rules.{pure-Keeps, bind-post, bind-Keeps}
use janus_server.Core.Redis.Records.{is_in}
use janus_server.Core.Redis.Queues.{Queues}
use janus_server.Gateway.Events.Defs.{
  QueueKey, usage_queue, usage_inflight, usage_dlq, default_batch_size,
  default_inflight_stale_seconds, max_retry_attempts, Dict, EventCodec, ClaimedEvent, EventError,
}
use janus_server.Gateway.Events.Pipeline.{
  claim_batch, ack_claimed, retry_or_dlq_claimed, dlq_claimed, recover_stale_claims,
}
use janus_server.Gateway.Events.UsageBatch.{
  Ledger, rows_of, sort_claims, commit_rows, insert_rows, bulk_insert_usage, after_insert,
  write_records, settle_batch, flush_usage_records,
}
use janus_server.Gateway.Events.Held.{
  waiting, buried, written, Written, Here, settled, in_flight, Held,
}
use janus_server.Gateway.Events.Moves.{
  recover_stale_claims-Keeps, dlq_claimed-Keeps, retry_or_dlq_claimed-Keeps,
}
use janus_server.Gateway.Events.Claims.{HeldIn, Genuine, Claims, claim_batch-Claims}
use janus_server.Gateway.Events.Kept.{AllWritten, ack_loop-Held, sort_claims-Genuine, written_batch}

module _ {T : Type 0} (e : Eq QueueKey) (f : Eq T) (codec : EventCodec T)
    (redis : Queues QueueKey T e) (ledger : Ledger T e redis) where
  open redis use {Store, items}

  insert-Written :
      (t : T) (rows : List (Dict T)) (n : ℕ) (s s' : Store)
      → ledger.insert_ignore_conflicts rows s ≡ some (n, s')
      → Written e f codec redis ledger t s
      → Written e f codec redis ledger t s'
  insert-Written t rows n s s' q w = record {
    record_of = w.record_of;
    rows = w.rows;
    read = w.read;
    covered = w.covered;
    taken = ledger.Took_before w.rows rows n s s' q w.taken;
  }

  insert-Here :
      (t : T) (rows : List (Dict T)) (n : ℕ) (s s' : Store)
      → ledger.insert_ignore_conflicts rows s ≡ some (n, s')
      → Here e f codec redis ledger t s
      → Here e f codec redis ledger t s'
  insert-Here t rows n s s' q (settled (waiting h)) =
      settled (waiting (ap (is_in f t) (ledger.items-insert usage_queue rows n s s' q) ∙ h))
  insert-Here t rows n s s' q (settled (buried h)) =
      settled (buried (ap (is_in f t) (ledger.items-insert usage_dlq rows n s s' q) ∙ h))
  insert-Here t rows n s s' q (settled (written w)) =
      settled (written (insert-Written t rows n s s' q w))
  insert-Here t rows n s s' q (in_flight ms h) =
      in_flight ms (ap (is_in f _) (ledger.items-insert usage_inflight rows n s s' q) ∙ h)

  module _ (p : T) where
    abbrev Stays : {A : Type 0} → Result EventError A × Conn Store → Type 0
    Stays o = HeldIn e f codec redis ledger p o.1.store

    module _ (batch : List (ClaimedEvent T))
        (made : All (Genuine e f codec redis ledger p) batch) where
      abbrev valid : List (ClaimedEvent T)
      valid = (sort_claims e f codec redis ledger batch).valid_claims

      -- After the database has answered.
      abbrev Answered : Result EventError (Option ℕ) × Conn Store → Type 0
      Answered o =
          HeldIn e f codec redis ledger p o.1.store
          × ((n : ℕ) → o.0 ≡ ok (some n) → AllWritten e f codec redis ledger p valid o.1.store)

      commit_rows-Answered :
          (rows : List (Dict T)) (c : Conn Store) (x : Option (ℕ × Store))
          → rows_of e redis ledger f (sort_claims e f codec redis ledger batch).records [] 0
            ≡ some rows
          → ledger.insert_ignore_conflicts rows c.store ≡ x
          → HeldIn e f codec redis ledger p c.store
          → Answered (commit_rows e f codec redis ledger x c)
      commit_rows-Answered rows c none q r h = (h, λ n eq. absurd cc)
      commit_rows-Answered rows c (some (n, s')) q r (t, copy, here) = (
        (t, copy, insert-Here t rows n c.store s' r here),
        λ m eq.
            written_batch e f codec redis ledger p batch rows s' q
              (ledger.Took-insert rows n c.store s' r),
      )

      insert_rows-Answered :
          (o : Option (List (Dict T))) (c : Conn Store)
          → rows_of e redis ledger f (sort_claims e f codec redis ledger batch).records [] 0 ≡ o
          → HeldIn e f codec redis ledger p c.store
          → Answered (insert_rows e f codec redis ledger o c)
      insert_rows-Answered none c q h = (h, λ n eq. absurd cc)
      insert_rows-Answered (some rows) c q h =
          commit_rows-Answered rows c (ledger.insert_ignore_conflicts rows c.store) q refl h

      after_insert-Stays :
          (o : Option ℕ) (c : Conn Store)
          → HeldIn e f codec redis ledger p c.store
          → ((n : ℕ) → o ≡ some n → AllWritten e f codec redis ledger p valid c.store)
          → Stays (after_insert e f codec redis ledger valid o c)
      unfolding ack_claimed
      after_insert-Stays none c h w =
          (bind-Keeps (HeldIn e f codec redis ledger p)
              (retry_or_dlq_claimed e f codec redis usage_queue usage_inflight usage_dlq
                max_retry_attempts valid)
              (λ _. pure 0)
              (retry_or_dlq_claimed-Keeps e f codec redis ledger p max_retry_attempts valid
                (sort_claims-Genuine e f codec redis ledger p batch made).0)
              (λ _. pure-Keeps (HeldIn e f codec redis ledger p) 0)).keeps
            c h
      after_insert-Stays (some n) c h w =
          bind-post Stays Stays (ack_claimed e f codec redis usage_inflight valid) (λ _. pure n) c
            (ack_loop-Held e f codec redis ledger p valid 0 c
              (sort_claims-Genuine e f codec redis ledger p batch made).0 (w n refl) h)
            (λ a c' h'. h') (λ x c' h'. h')

      write_records-Stays :
          (records : List (Dict T)) (c : Conn Store)
          → (sort_claims e f codec redis ledger batch).records ≡ records
          → HeldIn e f codec redis ledger p c.store
          → Stays (write_records e f codec redis ledger records valid c)
      unfolding bulk_insert_usage
      write_records-Stays [] c q h = h
      write_records-Stays (d ∷ ds) c q h =
          bind-post Answered Stays (bulk_insert_usage e f codec redis ledger (d ∷ ds))
            (after_insert e f codec redis ledger valid) c
            (insert_rows-Answered (rows_of e redis ledger f (d ∷ ds) [] 0) c
              (ap (λ l. rows_of e redis ledger f l [] 0) q) h)
            (λ o c' (h', w). after_insert-Stays o c' h' (λ n eq. w n (ap ok eq)))
            (λ x c' (h', w). h')

      settle_batch-Stays :
          (c : Conn Store)
          → HeldIn e f codec redis ledger p c.store
          → Stays (settle_batch e f codec redis ledger batch c)
      unfolding settle_batch
      settle_batch-Stays c h =
          bind-post Stays Stays
            (dlq_claimed e f codec redis usage_inflight usage_dlq
              (sort_claims e f codec redis ledger batch).unparseable)
            (λ _.
              write_records e f codec redis ledger
                (sort_claims e f codec redis ledger batch).records valid)
            c
            ((dlq_claimed-Keeps e f codec redis ledger p
                (sort_claims e f codec redis ledger batch).unparseable
                (sort_claims-Genuine e f codec redis ledger p batch made).1).keeps
              c h)
            (λ a c' h'.
              write_records-Stays (sort_claims e f codec redis ledger batch).records c' refl h')
            (λ x c' h'. h')

    flush_usage_records-Stays :
        (now_ms : ℕ) (now : ℕ → ℕ) (c : Conn Store)
        → HeldIn e f codec redis ledger p c.store
        → Stays (flush_usage_records e f codec redis ledger now_ms now c)
    unfolding flush_usage_records
    flush_usage_records-Stays now_ms now c h =
        bind-post Stays Stays
          (recover_stale_claims e f codec redis usage_queue usage_inflight usage_dlq
            default_inflight_stale_seconds now_ms)
          (λ _.
            claim_batch e f codec redis usage_queue usage_inflight default_batch_size now
            >>= settle_batch e f codec redis ledger)
          c
          ((recover_stale_claims-Keeps e f codec redis ledger p default_inflight_stale_seconds
              now_ms).keeps
            c h)
          (λ a c' h'.
            bind-post (Claims e f codec redis ledger p) Stays
              (claim_batch e f codec redis usage_queue usage_inflight default_batch_size now)
              (settle_batch e f codec redis ledger) c'
              (claim_batch-Claims e f codec redis ledger p now default_batch_size c' h')
              (λ batch c'' (h'', made). settle_batch-Stays batch (made batch refl) c'' h'')
              (λ x c'' (h'', made). h''))
          (λ x c' h'. h')

  -- Calls of the batch writer, each with the clock at its start and at its claims.
  abbrev pub flush_all : List (ℕ × (ℕ → ℕ)) → Conn Store → Conn Store
  flush_all [] c = c
  flush_all ((now_ms, now) ∷ calls) c =
      flush_all calls (flush_usage_records e f codec redis ledger now_ms now c).1

  -- No usage event is lost. Whatever calls of flush_usage_records follow, whatever clocks they read,
  -- and whatever round trips and insertions fail (one that fails has not run): an event that waits in
  -- the queue, or of which a copy is held, is held afterwards. The event, or a copy of it with the
  -- same fields but for the number of attempts, waits in the queue, is in flight in an envelope that
  -- a claim made, is among the dead letters, or is written: the database has taken rows of which one
  -- bills what it says (the user, the model, the tokens and the cost) or has the same request_id.
  pub flush_usage_records-Held :
      (p : T) (calls : List (ℕ × (ℕ → ℕ))) (c : Conn Store)
      → Held e f codec redis ledger p c.store
      → Held e f codec redis ledger p (flush_all calls c).store
  flush_usage_records-Held p [] c h = h
  flush_usage_records-Held p ((now_ms, now) ∷ calls) c h =
      flush_usage_records-Held p calls (flush_usage_records e f codec redis ledger now_ms now c).1
        (flush_usage_records-Stays p now_ms now c h)
