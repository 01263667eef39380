-- ===== src/Gateway/Events/Claims.antt =====
-- Claiming a batch keeps every event, and the claims are genuine.
use mathlib.Core.Path.{subst}
use janus_server.Prelude.{
  ℕ, zero, suc, ◌≡◌, refl, sym, ap, ◌∙◌, Bool, true, false, ◌||◌, Option, none, some, List, [], ◌∷◌,
  All, Eq,
}
use janus_server.Core.Redis.{Conn, Client, Result, ok, err, command, pure}
use janus_server.Core.Redis.Rules.{command-post, bind-post}
use janus_server.Core.Redis.Records.{is_in}
use janus_server.Core.Redis.Queues.{Queues, rpush, items-put_self, items-put_apart}
use janus_server.Gateway.Events.Defs.{
  QueueKey, usage_queue, usage_inflight, usage_dlq, EventCodec, ClaimedEvent, EventError,
}
use janus_server.Gateway.Events.Pipeline.{
  envelope_of, claim_from, claim_event_script, decode_claimed, keep_claim, after_claim, claim_loop,
  claim_batch, handled,
}
use janus_server.Gateway.Events.UsageBatch.{Ledger}
use janus_server.Gateway.Events.Held.{
  waiting, buried, written, put-Written, Here, settled, in_flight, decode_claimed-envelope_of,
  rpush-Here, rpush_self,
}
use janus_server.Gateway.Events.Moves.{HeldAt, IsClaim}

ok-inj : {A : Type 0} (x y : A) → ◌≡◌ {A = Result EventError A} (ok x) (ok y) → x ≡ y
ok-inj x y q = cc

module _ {T : Type 0} (e : Eq QueueKey) (f : Eq T) (codec : EventCodec T)
    (redis : Queues QueueKey T e) (ledger : Ledger T e redis) where
  open redis use {Store, items, put}

  -- The claim script takes the first event of the queue into flight.
  module _ (now_ms : ℕ) where
    shorter-Here :
        (t head : T) (rest : List T) (s : Store)
        → items usage_queue s ≡ head ∷ rest
        → Here e f codec redis ledger t s
        → Here e f codec redis ledger t (
            rpush e f redis usage_inflight
              (envelope_of e f codec redis head now_ms)
              (put usage_queue rest s))
    shorter-Here t head rest s q (settled (waiting h)) =
        go (f.same t head) refl (sym (ap (is_in f t) q) ∙ h)
      where
        s' : Store
        s' = put usage_queue rest s

        go :
            (b : Bool)
            → f.same t head ≡ b
            → (b || is_in f t rest) ≡ true
            → Here e f codec redis ledger t
                (rpush e f redis usage_inflight (envelope_of e f codec redis head now_ms) s')
        go true r h =
            subst
              (λ x.
                Here e f codec redis ledger x
                  (rpush e f redis usage_inflight (envelope_of e f codec redis head now_ms) s'))
              (sym ((f.same_iff t head).0 r))
              (in_flight now_ms (
                rpush_self e f codec redis ledger usage_inflight
                  (envelope_of e f codec redis head now_ms) s'))
        go false r h =
            rpush-Here e f codec redis ledger usage_inflight t
              (envelope_of e f codec redis head now_ms) s'
              (settled (waiting (ap (is_in f t) (items-put_self e f redis usage_queue rest s) ∙ h)))
    shorter-Here t head rest s q (settled (buried h)) =
        rpush-Here e f codec redis ledger usage_inflight t (envelope_of e f codec redis head now_ms)
          (put usage_queue rest s)
          (settled (
            buried (
              ap (is_in f t) (items-put_apart e f redis usage_dlq usage_queue rest s (λ r. cc))
              ∙ h)))
    shorter-Here t head rest s q (settled (written w)) =
        rpush-Here e f codec redis ledger usage_inflight t (envelope_of e f codec redis head now_ms)
          (put usage_queue rest s)
          (settled (written (put-Written e f codec redis ledger usage_queue rest t s w)))
    shorter-Here t head rest s q (in_flight ms h) =
        rpush-Here e f codec redis ledger usage_inflight t (envelope_of e f codec redis head now_ms)
          (put usage_queue rest s)
          (in_flight ms (
            ap (is_in f (envelope_of e f codec redis t ms))
              (items-put_apart e f redis usage_inflight usage_queue rest s (λ r. cc))
            ∙ h))

  module _ (p : T) where
    abbrev pub HeldIn : Store → Type 0
    HeldIn s = HeldAt e f codec redis ledger p s

    abbrev pub Genuine : ClaimedEvent T → Type 0
    Genuine item = IsClaim e f codec redis ledger p item

    -- The reply of the claim script is an envelope that it made.
    abbrev Replied : Result EventError (Option T) × Conn Store → Type 0
    Replied o =
        HeldIn o.1.store
        × ((envelope : T)
            → o.0 ≡ ok (some envelope)
            → (t : T) × (ms : ℕ) × (envelope ≡ envelope_of e f codec redis t ms))

    claim_from-Replied :
        (now_ms : ℕ) (l : List T) (s : Store) (up : List Bool)
        → items usage_queue s ≡ l
        → HeldIn s
        → Replied (
          ok (claim_from e f codec redis usage_queue usage_inflight now_ms l s).0,
          record {
            store = (claim_from e f codec redis usage_queue usage_inflight now_ms l s).1;
            up = up;
          },
        )
    claim_from-Replied now_ms [] s up q h = (h, λ envelope r. cc)
    claim_from-Replied now_ms (head ∷ rest) s up q (t, copy, here) =
        ((t, copy, shorter-Here now_ms t head rest s q here), λ envelope r. (head, now_ms, cc))

    abbrev pub Claims : Result EventError (List (ClaimedEvent T)) × Conn Store → Type 0
    Claims o =
        HeldIn o.1.store × ((batch : List (ClaimedEvent T)) → o.0 ≡ ok batch → All Genuine batch)

    none_claimed :
        (batch : List (ClaimedEvent T))
        → ◌≡◌ {A = Result EventError (List (ClaimedEvent T))} (ok []) (ok batch)
        → All Genuine batch
    none_claimed batch q = subst (All Genuine) (ok-inj [] batch q) tt

    after_claim-Claims :
        (o : Option T) (rest : Client Store EventError (List (ClaimedEvent T))) (c : Conn Store)
        → ((c : Conn Store) → HeldIn c.store → Claims (rest c))
        → HeldIn c.store
        → ((envelope : T)
            → o ≡ some envelope
            → (t : T) × (ms : ℕ) × (envelope ≡ envelope_of e f codec redis t ms))
        → Claims (after_claim e f codec redis o rest c)
    after_claim-Claims none rest c ih h made = (h, none_claimed)
    after_claim-Claims (some envelope) rest c ih h made =
        let (t, ms, eq) = made envelope refl in
        subst (λ x. Claims (keep_claim e f codec redis x rest c))
          (sym (decode_claimed-envelope_of e f codec redis ledger t ms)
            ∙ ap (decode_claimed e f codec redis) (sym eq))
          (bind-post Claims Claims rest
            (λ batch.
              pure (record { raw = t; envelope = envelope_of e f codec redis t ms } ∷ batch))
            c (ih c h)
            (λ batch c' (h', all). (
              h',
              λ batch' q. subst (All Genuine) (ok-inj _ batch' q) ((ms, refl), all batch refl),
            ))
            (λ x c' (h', all). (h', λ batch q. absurd cc)))

    claim_loop-Claims :
        (now : ℕ → ℕ) (rounds : ℕ) (c : Conn Store)
        → HeldIn c.store
        → Claims (claim_loop e f codec redis usage_queue usage_inflight now rounds c)
    unfolding claim_loop claim_event_script
    claim_loop-Claims now zero c h = (h, none_claimed)
    claim_loop-Claims now (suc rounds) c h =
        bind-post Replied Claims
          (command (claim_event_script e f codec redis usage_queue usage_inflight (now rounds)))
          (λ envelope.
            after_claim e f codec redis envelope
              (claim_loop e f codec redis usage_queue usage_inflight now rounds))
          c
          (command-post Replied
            (claim_event_script e f codec redis usage_queue usage_inflight (now rounds)) c
            (λ up. claim_from-Replied (now rounds) (items usage_queue c.store) c.store up refl h)
            (λ up. (h, λ envelope q. absurd cc)))
          (λ o c' (h', made).
            after_claim-Claims o (claim_loop e f codec redis usage_queue usage_inflight now rounds)
              c' (claim_loop-Claims now rounds) h' (λ envelope q. made envelope (ap ok q)))
          (λ x c' (h', made). (h', λ batch q. absurd cc))

    pub claim_batch-Claims :
        (now : ℕ → ℕ) (size : ℕ) (c : Conn Store)
        → HeldIn c.store
        → Claims (claim_batch e f codec redis usage_queue usage_inflight size now c)
    unfolding claim_batch
    claim_batch-Claims now size c h = go _ (claim_loop-Claims now size c h)
      where
        go :
            (o : Result EventError (List (ClaimedEvent T)) × Conn Store)
            → Claims o
            → Claims (handled [] o)
        go (ok batch, c) h = h
        go (err x, c) (h, all) = (h, none_claimed)
