-- ===== src/Gateway/Events/Moves.antt =====
-- The steps that move one envelope keep every event.
use mathlib.Core.Path.{subst}
use janus_server.Prelude.{
  ℕ, ◌≡◌, ◌≢◌, refl, sym, ap, ◌∙◌, Bool, true, false, Option, none, some, List, [], ◌∷◌, All, Eq,
  if◌then◌else◌,
}
use janus_server.Prelude.Int.{ℤ, pos, leb_ℤ}
use janus_server.Core.Redis.{Conn, Client, Result, ok, err, ◌>>◌}
use janus_server.Core.Redis.Rules.{
  Keeps, pure-Keeps, command-Keeps, command-post, bind-post, bind-Keeps,
}
use janus_server.Core.Redis.Records.{is_in}
use janus_server.Core.Redis.Queues.{Queues, rpush, lrem}
use janus_server.Gateway.Events.Defs.{
  QueueKey, usage_queue, usage_inflight, usage_dlq, JsonValue, text, field, EventCodec,
  ClaimedEvent, EventError,
}
use janus_server.Gateway.Events.Pipeline.{
  envelope_of, Fate, dead, stale, fresh, fate, fate_decoded, recover_payload, recover_one,
  recover_each, recover_stale_script, go_on, change, bury, requeue, increment_attempt, rescue,
  handled, dlq_loop, dlq_claimed, retry_loop, retry_or_dlq_claimed, recover_stale_claims,
  recovered_count,
}
use janus_server.Gateway.Events.UsageBatch.{Ledger}
use janus_server.Gateway.Events.Copies.{increment_attempt-SameEvent}
use janus_server.Gateway.Events.Held.{
  Settled, waiting, buried, Held, Copies, retried, envelope_of-inj, lrem-Held, rpush-Held,
  rpush_self,
}

module _ {S E A : Type 0} (P : S → Type 0) where
  pub rescue-Keeps : (a : A) (m : Client S E A) → Keeps P m → Keeps P (rescue a m)
  rescue-Keeps a m keep = record { keeps = λ c p. go (m c) (keep.keeps c p) }
    where
      go : (o : Result E A × Conn S) → P o.1.store → P (handled a o).1.store
      go (ok x, c) p = p
      go (err x, c) p = p

stale_text :
    {T : Type 0} (b : Bool) (t : T) (payload : JsonValue T)
    → (if b then stale (text t) else fresh) ≡ stale payload
    → payload ≡ text t
stale_text true t payload h = cc
stale_text false t payload h = cc

never_dead : {T : Type 0} (b : Bool) (t : T) → (if b then stale (text t) else fresh) ≢ dead
never_dead true t h = cc
never_dead false t h = cc

module _ {T : Type 0} (e : Eq QueueKey) (f : Eq T) (codec : EventCodec T)
    (redis : Queues QueueKey T e) (ledger : Ledger T e redis) where
  open redis use {Store, items, put}

  fate-envelope_of :
      (cutoff : ℤ) (t : T) (now_ms : ℕ)
      → fate e f codec redis cutoff (envelope_of e f codec redis t now_ms)
        ≡ (if leb_ℤ (pos now_ms) cutoff then stale (text t) else fresh)
  unfolding fate field
  fate-envelope_of cutoff t now_ms =
      ap (fate_decoded e f codec redis cutoff) (codec.cjson_decode-cjson_encode _)
      ∙ rw
          (
            codec.field-arranged "payload" _,
            codec.field-arranged "claimed_at_ms" _,
            codec.tonumber-show_ms now_ms,
          )
          refl

  module _ (p : T) where
    abbrev pub HeldAt : Store → Type 0
    HeldAt s = Held e f codec redis ledger p s

    recover_payload-Held :
        (cutoff : ℤ) (envelope : T) (payload : JsonValue T) (r d : ℕ) (s : Store)
        → fate e f codec redis cutoff envelope ≡ stale payload
        → (o : Option T) → codec.argument payload ≡ o
        → HeldAt s
        → HeldAt (recover_payload e f codec redis usage_inflight usage_queue envelope o r d s).1
    recover_payload-Held cutoff envelope payload r d s is_stale none q h = h
    recover_payload-Held cutoff envelope payload r d s is_stale (some u) q h =
        lrem-Held e f codec redis ledger p envelope (rpush e f redis usage_queue u s)
          (λ t now_ms copy same. (
            t,
            copy,
            waiting (
                let the_text : payload ≡ text t = stale_text (leb_ℤ (pos now_ms) cutoff) t payload (
                  sym (fate-envelope_of cutoff t now_ms)
                  ∙ ap (fate e f codec redis cutoff) same
                  ∙ is_stale) in
                let pushed : some t ≡ some u =
                  sym (codec.argument-text t) ∙ ap codec.argument (sym the_text) ∙ q in
                ap
                  (λ o. is_in f t (items usage_queue (rpush e f redis usage_queue (or_else t o) s)))
                  (sym pushed)
                ∙ rpush_self e f codec redis ledger usage_queue t s),
          ))
          (rpush-Held e f codec redis ledger usage_queue p u s h)
      where
        or_else : T → Option T → T
        or_else t none = t
        or_else t (some u) = u

    recover_one-Held :
        (cutoff : ℤ) (envelope : T) (x : Fate T) (r d : ℕ) (s : Store)
        → fate e f codec redis cutoff envelope ≡ x
        → HeldAt s
        → HeldAt
            (recover_one e f codec redis usage_inflight usage_queue usage_dlq envelope x r d s).1
    recover_one-Held cutoff envelope dead r d s q h =
        lrem-Held e f codec redis ledger p envelope (rpush e f redis usage_dlq envelope s)
          (λ t now_ms copy same. absurd (
            never_dead (leb_ℤ (pos now_ms) cutoff) t
              (sym (fate-envelope_of cutoff t now_ms) ∙ ap (fate e f codec redis cutoff) same ∙ q)))
          (rpush-Held e f codec redis ledger usage_dlq p envelope s h)
    recover_one-Held cutoff envelope (stale payload) r d s q h =
        recover_payload-Held cutoff envelope payload r d s q (codec.argument payload) refl h
    recover_one-Held cutoff envelope fresh r d s q h = h

    recover_each-Held :
        (cutoff : ℤ) (envelopes : List T) (r d : ℕ) (s : Store)
        → HeldAt s
        → HeldAt
            (recover_each e f codec redis usage_inflight usage_queue usage_dlq cutoff envelopes r d
              s).1
    unfolding recover_each
    recover_each-Held cutoff [] r d s h = h
    recover_each-Held cutoff (envelope ∷ envelopes) r d s h =
        go
          (recover_one e f codec redis usage_inflight usage_queue usage_dlq envelope
            (fate e f codec redis cutoff envelope) r d s)
          (recover_one-Held cutoff envelope (fate e f codec redis cutoff envelope) r d s refl h)
          (recover_each-Held cutoff envelopes)
      where
        go :
            (o : Option (ℕ × ℕ) × Store)
            → HeldAt o.1
            → ((r d : ℕ) (s : Store)
                → HeldAt s
                → HeldAt
                    (recover_each e f codec redis usage_inflight usage_queue usage_dlq cutoff
                      envelopes r d s).1)
            → HeldAt
                (go_on e f codec redis o (λ r d s'.
                  recover_each e f codec redis usage_inflight usage_queue usage_dlq cutoff envelopes
                    r d s')).1
        go (none, s) h rest = h
        go (some (r, d), s) h rest = rest r d s h

    pub recover_stale_claims-Keeps :
        (stale_after now_ms : ℕ)
        → Keeps HeldAt (
            recover_stale_claims e f codec redis usage_queue usage_inflight usage_dlq stale_after
              now_ms)
    unfolding recover_stale_claims recover_stale_script
    recover_stale_claims-Keeps stale_after now_ms = rescue-Keeps HeldAt 0 _ (
        bind-Keeps HeldAt _ (recovered_count e f codec redis)
          (command-Keeps HeldAt _ (λ s h. recover_each-Held _ (items usage_inflight s) 0 0 s h))
          counted)
      where
        counted : (o : Option (ℕ × ℕ)) → Keeps HeldAt (recovered_count e f codec redis o)
        counted none = record { keeps = λ c h. h }
        counted (some (r, d)) = record { keeps = λ c h. h }

    -- A claim as the claim script makes them.
    abbrev pub IsClaim : ClaimedEvent T → Type 0
    IsClaim item = (now_ms : ℕ) × (item.envelope ≡ envelope_of e f codec redis item.raw now_ms)

    -- First a text of the claim goes to a list, then its envelope leaves the inflight list.
    pushed_and_removed :
        (k : QueueKey) (u : T) (item : ClaimedEvent T)
        → IsClaim item
        → ((s : Store)
            → is_in f u (items k s) ≡ true
            → Copies e f codec redis ledger p item.raw
            → (t' : T) × Copies e f codec redis ledger p t' × Settled e f codec redis ledger t' s)
        → Keeps HeldAt (
            change e f codec redis (rpush e f redis k u)
            >> change e f codec redis (lrem e f redis usage_inflight item.envelope))
    pushed_and_removed k u item (made_ms, made) other = record {
      keeps = λ c h.
          bind-post Pushed (λ o. HeldAt o.1.store) (change e f codec redis (rpush e f redis k u))
            (λ _. change e f codec redis (lrem e f redis usage_inflight item.envelope)) c
            (command-post Pushed (λ s. (tt, rpush e f redis k u s)) c
              (λ up. (
                rpush-Held e f codec redis ledger k p u c.store h,
                λ q. rpush_self e f codec redis ledger k u c.store,
              ))
              (λ up. (h, λ q. absurd cc)))
            (λ a c' (h', there).
              command-post (λ o. HeldAt o.1.store)
                (λ s. (tt, lrem e f redis usage_inflight item.envelope s)) c'
                (λ up.
                  lrem-Held e f codec redis ledger p item.envelope c'.store
                    (λ t now_ms copy same. other c'.store (there refl) (
                      subst (Copies e f codec redis ledger p)
                        (envelope_of-inj e f codec redis ledger t item.raw now_ms made_ms
                          (same ∙ made))
                        copy))
                    h')
                (λ up. h'))
            (λ x c' (h', there). h');
    }
      where
        Pushed : Result EventError (Unit {0}) × Conn Store → Type 0
        Pushed o = HeldAt o.1.store × (o.0 ≡ ok tt → is_in f u (items k o.1.store) ≡ true)

    bury-Keeps :
        (item : ClaimedEvent T)
        → IsClaim item
        → Keeps HeldAt (bury e f codec redis usage_inflight usage_dlq item)
    bury-Keeps item made =
        pushed_and_removed usage_dlq item.raw item made
          (λ s there copy. (item.raw, copy, buried there))

    dlq_loop-Keeps :
        (batch : List (ClaimedEvent T))
        → All IsClaim batch
        → Keeps HeldAt (dlq_loop e f codec redis usage_inflight usage_dlq batch)
    unfolding dlq_loop
    dlq_loop-Keeps [] made = pure-Keeps HeldAt tt
    dlq_loop-Keeps (item ∷ batch) (made, mades) =
        bind-Keeps HeldAt (bury e f codec redis usage_inflight usage_dlq item)
          (λ _. dlq_loop e f codec redis usage_inflight usage_dlq batch) (bury-Keeps item made)
          (λ _. dlq_loop-Keeps batch mades)

    pub dlq_claimed-Keeps :
        (batch : List (ClaimedEvent T))
        → All IsClaim batch
        → Keeps HeldAt (dlq_claimed e f codec redis usage_inflight usage_dlq batch)
    unfolding dlq_claimed
    dlq_claimed-Keeps batch made =
        rescue-Keeps HeldAt tt (dlq_loop e f codec redis usage_inflight usage_dlq batch)
          (dlq_loop-Keeps batch made)

    requeue-Keeps :
        (max_attempts : ℤ) (item : ClaimedEvent T) (o : Option (T × ℤ))
        → increment_attempt e f codec redis item.raw ≡ o
        → IsClaim item
        → Keeps HeldAt
            (requeue e f codec redis usage_queue usage_inflight usage_dlq max_attempts item o)
    requeue-Keeps max_attempts item none q made = record { keeps = λ c h. h }
    requeue-Keeps max_attempts item (some (payload, attempts)) q made =
        pushed_and_removed (if leb_ℤ max_attempts attempts then usage_dlq else usage_queue) payload
          item made
          (λ s there copy. (
            payload,
            retried copy (increment_attempt-SameEvent codec e f redis item.raw payload attempts q),
            go (leb_ℤ max_attempts attempts) s there,
          ))
      where
        go :
            (b : Bool) (s : Store)
            → is_in f payload (items (if b then usage_dlq else usage_queue) s) ≡ true
            → Settled e f codec redis ledger payload s
        go true s there = buried there
        go false s there = waiting there

    retry_loop-Keeps :
        (max_attempts : ℤ) (batch : List (ClaimedEvent T))
        → All IsClaim batch
        → Keeps HeldAt
            (retry_loop e f codec redis usage_queue usage_inflight usage_dlq max_attempts batch)
    unfolding retry_loop
    retry_loop-Keeps max_attempts [] made = pure-Keeps HeldAt tt
    retry_loop-Keeps max_attempts (item ∷ batch) (made, mades) =
        bind-Keeps HeldAt
          (requeue e f codec redis usage_queue usage_inflight usage_dlq max_attempts item
            (increment_attempt e f codec redis item.raw))
          (λ _. retry_loop e f codec redis usage_queue usage_inflight usage_dlq max_attempts batch)
          (requeue-Keeps max_attempts item (increment_attempt e f codec redis item.raw) refl made)
          (λ _. retry_loop-Keeps max_attempts batch mades)

    pub retry_or_dlq_claimed-Keeps :
        (max_attempts : ℤ) (batch : List (ClaimedEvent T))
        → All IsClaim batch
        → Keeps HeldAt (
            retry_or_dlq_claimed e f codec redis usage_queue usage_inflight usage_dlq max_attempts
              batch)
    unfolding retry_or_dlq_claimed
    retry_or_dlq_claimed-Keeps max_attempts batch made =
        rescue-Keeps HeldAt tt
          (retry_loop e f codec redis usage_queue usage_inflight usage_dlq max_attempts batch)
          (retry_loop-Keeps max_attempts batch made)
