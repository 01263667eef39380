-- ===== src/Gateway/Events/Held.antt =====
-- Where a usage event may be: it waits in the queue, it is in flight, it is dead, or it is written. A
-- retry replaces it by a copy with one more attempt.
use janus_server.Prelude.{
  ℕ, ◌≡◌, ◌≢◌, refl, sym, ap, ◌∙◌, Bool, true, false, List, [], ◌∷◌, ◌++◌, Eq,
}
use janus_server.Core.Redis.Records.{is_in}
use janus_server.Core.Redis.Queues.{
  Queues, rpush, lrem, items-put_self, items-put_apart, is_in-append_left, is_in-append_right,
  is_in_self, is_in-remove_first,
}
use janus_server.Gateway.Events.Defs.{
  QueueKey, usage_queue, usage_inflight, usage_dlq, Dict, dict, field, EventCodec,
}
use janus_server.Gateway.Events.Pipeline.{
  envelope_of, Claim, claimed, skipped, no_get, claim_payload, claim_decoded, decode_claimed,
}
use janus_server.Gateway.Events.UsageBatch.{Ledger}
use janus_server.Gateway.Events.Rows.{Covered}
use janus_server.Gateway.Events.Copies.{SameEvent}

module _ {T : Type 0} (e : Eq QueueKey) (f : Eq T) (codec : EventCodec T)
    (redis : Queues QueueKey T e) (ledger : Ledger T e redis) where
  open redis use {Store, items, put}

  -- The text is that of a record, and the database has taken rows of which one accounts for it.
  pub record Written (t : T) (s : Store) : Type 0 where
    pub record_of : Dict T
    pub rows : List (Dict T)
    pub read : codec.loads t ≡ dict record_of
    pub covered : Covered e redis ledger record_of rows
    pub taken : ledger.Took rows s

  -- Not in flight.
  pub data Settled (t : T) (s : Store) : Type 0 where
    waiting : is_in f t (items usage_queue s) ≡ true → Settled t s
    buried : is_in f t (items usage_dlq s) ≡ true → Settled t s
    written : Written t s → Settled t s

  pub data Here (t : T) (s : Store) : Type 0 where
    settled : Settled t s → Here t s
    in_flight :
        (now_ms : ℕ)
        → is_in f (envelope_of e f codec redis t now_ms) (items usage_inflight s) ≡ true
        → Here t s

  -- The copies that retries make of an event.
  pub data Copies (p : T) : T → Type 0 where
    itself : Copies p p
    retried : {t t' : T} → Copies p t → SameEvent codec t t' → Copies p t'

  -- The event, or a copy of it, is somewhere.
  abbrev pub Held : T → Store → Type 0
  Held p s = (t : T) × Copies p t × Here t s

  pub put-Written :
      (k : QueueKey) (l : List T) (t : T) (s : Store) → Written t s → Written t (put k l s)
  put-Written k l t s w = record {
    record_of = w.record_of;
    rows = w.rows;
    read = w.read;
    covered = w.covered;
    taken = ledger.Took-put w.rows k l s w.taken;
  }

  -- An envelope belongs to one event.
  pub decode_claimed-envelope_of :
      (t : T) (now_ms : ℕ)
      → decode_claimed e f codec redis (envelope_of e f codec redis t now_ms)
        ≡ claimed (record { raw = t; envelope = envelope_of e f codec redis t now_ms })
  unfolding decode_claimed field
  decode_claimed-envelope_of t now_ms =
      ap (claim_decoded e f codec redis (envelope_of e f codec redis t now_ms))
        (codec.loads-cjson_encode _)
      ∙ ap (claim_payload e f codec redis (envelope_of e f codec redis t now_ms))
          (codec.field-arranged "payload" _)

  claimed_raw : Claim T → T → T
  claimed_raw (claimed item) t = item.raw
  claimed_raw skipped t = t
  claimed_raw no_get t = t

  pub envelope_of-inj :
      (t u : T) (m n : ℕ)
      → envelope_of e f codec redis t m ≡ envelope_of e f codec redis u n
      → t ≡ u
  unfolding claimed_raw
  envelope_of-inj t u m n h =
      sym (ap (λ c. claimed_raw c t) (decode_claimed-envelope_of t m))
      ∙ ap (λ x. claimed_raw (decode_claimed e f codec redis x) t) h
      ∙ ap (λ c. claimed_raw c t) (decode_claimed-envelope_of u n)

  -- A text is pushed to the queue or to the dead letters.
  grown :
      (k j : QueueKey) (t u : T) (s : Store)
      → is_in f t (items j s) ≡ true
      → is_in f t (items j (rpush e f redis k u s)) ≡ true
  grown k j t u s h = go (e.same j k) refl
    where
      go : (b : Bool) → e.same j k ≡ b → is_in f t (items j (rpush e f redis k u s)) ≡ true
      go true q =
          ap (λ i. is_in f t (items i (rpush e f redis k u s))) ((e.same_iff j k).0 q)
          ∙ ap (is_in f t) (items-put_self e f redis k (items k s ++ u ∷ []) s)
          ∙ is_in-append_left f t (items k s) (u ∷ [])
              (ap (λ i. is_in f t (items i s)) (sym ((e.same_iff j k).0 q)) ∙ h)
      go false q =
          ap (is_in f t) (
            items-put_apart e f redis j k (items k s ++ u ∷ []) s
              (λ eq. absurd (apart_absurd j k q eq)))
          ∙ h
        where
          apart_absurd : (j k : QueueKey) → e.same j k ≡ false → j ≢ k
          apart_absurd j k q eq = cc (q, (e.same_iff j k).1 eq)

  pub rpush-Settled :
      (k : QueueKey) (t u : T) (s : Store) → Settled t s → Settled t (rpush e f redis k u s)
  rpush-Settled k t u s (waiting h) = waiting (grown k usage_queue t u s h)
  rpush-Settled k t u s (buried h) = buried (grown k usage_dlq t u s h)
  rpush-Settled k t u s (written w) = written (put-Written k _ t s w)

  pub rpush-Here : (k : QueueKey) (t u : T) (s : Store) → Here t s → Here t (rpush e f redis k u s)
  rpush-Here k t u s (settled h) = settled (rpush-Settled k t u s h)
  rpush-Here k t u s (in_flight now_ms h) =
      in_flight now_ms (grown k usage_inflight (envelope_of e f codec redis t now_ms) u s h)

  pub rpush_self :
      (k : QueueKey) (t : T) (s : Store) → is_in f t (items k (rpush e f redis k t s)) ≡ true
  rpush_self k t s =
      ap (is_in f t) (items-put_self e f redis k (items k s ++ t ∷ []) s)
      ∙ is_in-append_right f t (items k s) (t ∷ []) (is_in_self f t [])

  put_inflight-Settled :
      (l : List T) (t : T) (s : Store) → Settled t s → Settled t (put usage_inflight l s)
  put_inflight-Settled l t s (waiting h) =
      waiting
        (ap (is_in f t) (items-put_apart e f redis usage_queue usage_inflight l s (λ q. cc)) ∙ h)
  put_inflight-Settled l t s (buried h) =
      buried (ap (is_in f t) (items-put_apart e f redis usage_dlq usage_inflight l s (λ q. cc)) ∙ h)
  put_inflight-Settled l t s (written w) = written (put-Written usage_inflight l t s w)

  -- An envelope leaves the inflight list. The event in it must be held elsewhere.
  pub lrem-Held :
      (p envelope : T) (s : Store)
      → ((t : T) (now_ms : ℕ)
          → Copies p t
          → envelope_of e f codec redis t now_ms ≡ envelope
          → (t' : T) × Copies p t' × Settled t' s)
      → Held p s
      → Held p (lrem e f redis usage_inflight envelope s)
  lrem-Held p envelope s other (t, copy, settled h) =
      (t, copy, settled (put_inflight-Settled _ t s h))
  lrem-Held p envelope s other (t, copy, in_flight now_ms h) =
      go (f.same (envelope_of e f codec redis t now_ms) envelope) refl
    where
      go :
          (b : Bool)
          → f.same (envelope_of e f codec redis t now_ms) envelope ≡ b
          → Held p (lrem e f redis usage_inflight envelope s)
      go true q =
          let (t', copy', h') = other t now_ms copy ((f.same_iff _ _).0 q) in
          (t', copy', settled (put_inflight-Settled _ t' s h'))
      go false q = (
        t,
        copy,
        in_flight now_ms (
            ap (is_in f (envelope_of e f codec redis t now_ms))
              (items-put_self e f redis usage_inflight _ s)
            ∙ is_in-remove_first f (envelope_of e f codec redis t now_ms) envelope
                (items usage_inflight s) (λ eq. absurd (cc (q, (f.same_iff _ _).1 eq))) h),
      )

  pub rpush-Held : (k : QueueKey) (p u : T) (s : Store) → Held p s → Held p (rpush e f redis k u s)
  rpush-Held k p u s (t, copy, h) = (t, copy, rpush-Here k t u s h)
