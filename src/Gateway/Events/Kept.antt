-- ===== src/Gateway/Events/Kept.antt =====
-- No usage event is lost on its way from the queue to the database.
use mathlib.Core.Path.{subst}
use janus_server.Prelude.{ℕ, ◌+◌, ◌≡◌, refl, sym, ◌∙◌, some, List, [], ◌∷◌, All, Eq}
use janus_server.Core.Redis.{Conn, Result, ok, err}
use janus_server.Core.Redis.Rules.{command-post}
use janus_server.Core.Redis.Queues.{Queues, lrem, count_first}
use janus_server.Gateway.Events.Defs.{
  QueueKey, usage_inflight, Dict, Decoded, dict, scalar, undecodable, EventCodec, ClaimedEvent,
  EventError,
}
use janus_server.Gateway.Events.Pipeline.{ack_loop, add_ack, reply_lrem}
use janus_server.Gateway.Events.UsageBatch.{Ledger, rows_of, Sorted, sort_one, sort_claims}
use janus_server.Gateway.Events.Rows.{Covered, rows_of-Covered}
use janus_server.Gateway.Events.Held.{written, Written, put-Written, envelope_of-inj, lrem-Held}
use janus_server.Gateway.Events.Claims.{HeldIn, Genuine}

module _ {T : Type 0} (e : Eq QueueKey) (f : Eq T) (codec : EventCodec T)
    (redis : Queues QueueKey T e) (ledger : Ledger T e redis) where
  open redis use {Store, items, put}

  module _ (p : T) where
    -- Acknowledged claims are written.
    abbrev pub AllWritten : List (ClaimedEvent T) → Store → Type 0
    AllWritten batch s = All (λ item. Written e f codec redis ledger item.raw s) batch

    put-AllWritten :
        (batch : List (ClaimedEvent T)) (k : QueueKey) (l : List T) (s : Store)
        → AllWritten batch s
        → AllWritten batch (put k l s)
    put-AllWritten [] k l s w = tt
    put-AllWritten (item ∷ batch) k l s (w, ws) =
        (put-Written e f codec redis ledger k l item.raw s w, put-AllWritten batch k l s ws)

    pub ack_loop-Held :
        (batch : List (ClaimedEvent T)) (acked : ℕ) (c : Conn Store)
        → All (Genuine e f codec redis ledger p) batch
        → AllWritten batch c.store
        → HeldIn e f codec redis ledger p c.store
        → HeldIn e f codec redis ledger p
            (ack_loop e f codec redis usage_inflight batch acked c).1.store
    unfolding ack_loop
    ack_loop-Held [] acked c made w h = h
    ack_loop-Held (item ∷ batch) acked c ((made_ms, made), mades) (w, ws) h =
        go (reply_lrem e f codec redis usage_inflight item.envelope c)
          (command-post Still
            (λ s. (
              count_first f item.envelope (items usage_inflight s),
              lrem e f redis usage_inflight item.envelope s,
            ))
            c
            (λ up. (
              lrem-Held e f codec redis ledger p item.envelope c.store
                  (λ t now_ms copy same. (
                    t,
                    copy,
                    written (
                        subst (λ x. Written e f codec redis ledger x c.store)
                          (sym (
                            envelope_of-inj e f codec redis ledger t item.raw now_ms made_ms
                              (same ∙ made)))
                          w),
                  ))
                  h,
              put-AllWritten batch usage_inflight _ c.store ws,
            ))
            (λ up. (h, ws)))
          (λ n c' h' ws'. ack_loop-Held batch n c' mades ws' h')
      where
        Still : Result EventError ℕ × Conn Store → Type 0
        Still o = HeldIn e f codec redis ledger p o.1.store × AllWritten batch o.1.store

        go :
            (o : Result EventError ℕ × Conn Store)
            → Still o
            → ((n : ℕ) (c' : Conn Store)
                → HeldIn e f codec redis ledger p c'.store
                → AllWritten batch c'.store
                → HeldIn e f codec redis ledger p
                    (ack_loop e f codec redis usage_inflight batch n c').1.store)
            → HeldIn e f codec redis ledger p
                (add_ack e f codec redis acked o
                  (λ n. ack_loop e f codec redis usage_inflight batch n)).1.store
        go (ok n, c') (h', ws') rest = rest (acked + n) c' h' ws'
        go (err x, c') (h', ws') rest = h'

    pub sort_claims-Genuine :
        (batch : List (ClaimedEvent T))
        → All (Genuine e f codec redis ledger p) batch
        → All
            (Genuine e f codec redis ledger p)
            (sort_claims e f codec redis ledger batch).valid_claims
          × All
              (Genuine e f codec redis ledger p)
              (sort_claims e f codec redis ledger batch).unparseable
    unfolding sort_claims
    sort_claims-Genuine [] made = (tt, tt)
    sort_claims-Genuine (item ∷ batch) (made, mades) =
        go (codec.loads item.raw) (sort_claims-Genuine batch mades)
      where
        rest : Sorted e f codec redis ledger
        rest = sort_claims e f codec redis ledger batch

        go :
            (o : Decoded T)
            → All (Genuine e f codec redis ledger p) rest.valid_claims
              × All (Genuine e f codec redis ledger p) rest.unparseable
            → All
                (Genuine e f codec redis ledger p)
                (sort_one e f codec redis ledger item o rest).valid_claims
              × All
                  (Genuine e f codec redis ledger p)
                  (sort_one e f codec redis ledger item o rest).unparseable
        go (dict d) (v, u) = ((made, v), u)
        go (scalar x) (v, u) = (v, (made, u))
        go undecodable (v, u) = (v, (made, u))

    -- What holds of each record holds of the record that each claim with one reads as.
    Reads : (Dict T → Type 0) → ClaimedEvent T → Type 0
    Reads P item = (d : Dict T) × (codec.loads item.raw ≡ dict d) × P d

    sort_claims-Reads :
        (P : Dict T → Type 0) (batch : List (ClaimedEvent T))
        → All P (sort_claims e f codec redis ledger batch).records
        → All (Reads P) (sort_claims e f codec redis ledger batch).valid_claims
    unfolding sort_claims Reads
    sort_claims-Reads P [] h = tt
    sort_claims-Reads P (item ∷ batch) h =
        go (codec.loads item.raw) refl h (sort_claims-Reads P batch)
      where
        rest : Sorted e f codec redis ledger
        rest = sort_claims e f codec redis ledger batch

        go :
            (o : Decoded T)
            → codec.loads item.raw ≡ o
            → All P (sort_one e f codec redis ledger item o rest).records
            → (All P rest.records → All (Reads P) rest.valid_claims)
            → All (Reads P) (sort_one e f codec redis ledger item o rest).valid_claims
        go (dict d) q (p, h) ih = ((d, q, p), ih h)
        go (scalar x) q h ih = ih h
        go undecodable q h ih = ih h

    all_written :
        (claims : List (ClaimedEvent T)) (rows : List (Dict T)) (s : Store)
        → ledger.Took rows s
        → All (Reads (λ d. Covered e redis ledger d rows)) claims
        → AllWritten claims s
    unfolding Reads
    all_written [] rows s took h = tt
    all_written (item ∷ claims) rows s took ((d, read, covered), h) = (
      record { record_of = d; rows = rows; read = read; covered = covered; taken = took },
      all_written claims rows s took h,
    )

    pub written_batch :
        (batch : List (ClaimedEvent T)) (rows : List (Dict T)) (s : Store)
        → rows_of e redis ledger f (sort_claims e f codec redis ledger batch).records [] 0
          ≡ some rows
        → ledger.Took rows s
        → AllWritten (sort_claims e f codec redis ledger batch).valid_claims s
    written_batch batch rows s q took =
        all_written (sort_claims e f codec redis ledger batch).valid_claims rows s took (
          sort_claims-Reads (λ d. Covered e redis ledger d rows) batch
            (rows_of-Covered e redis ledger f (sort_claims e f codec redis ledger batch).records
              rows q))
