-- ===== src/Gateway/Events/Log.antt =====
-- The queue and the outbox behind it are one log of events in their order (src/gateway/events.py).
use mathlib.Core.Path.{subst}
use janus_server.Prelude.{
  suc, ◌+◌, ◌≤◌, ◌≡◌, sym, ap, ◌∙◌, inl, inr, arith, Bool, List, [], ◌∷◌, ◌++◌, length,
  length-append, Eq,
}
use mathlib.Core.List.{append_assoc, append-nil}
use janus_server.Core.Redis.{Conn}
use janus_server.Core.Redis.Queues.{Queues}
use janus_server.Gateway.Events.Defs.{QueueKey, Dict, EventCodec}
use janus_server.Gateway.Events.Outbox.{Process, enqueue_event}
use janus_server.Gateway.Events.Replay.{
  length-Boxed, roomy-Boxed, SomeRan, Doubled, enqueue_event-Enqueued,
}
use janus_server.Gateway.Events.Stutters.{
  Stutters, Stutters-refl, Stutters-prefix, Stutters-suffix, Stutters-trans, Stutters-again,
}

module _ {T : Type 0} (e : Eq QueueKey) (f : Eq T) (codec : EventCodec T)
    (redis : Queues QueueKey T e) (ran : Conn redis.Store → Bool) where
  open redis use {Store, items}

  module _ (k : QueueKey) where
    -- The log: the queue, and the outbox behind it.
    abbrev pub log : Process e f codec redis ran → List T
    log p = items k p.conn.store ++ p.outboxes k

    -- Events are repeated only where a push raised and was served all the same.
    abbrev pub Logs : List T → List T → Type 0
    Logs = Stutters (SomeRan e f codec redis ran k)

    Doubled-Logs : (dup l : List T) → Doubled e f codec redis ran k dup l → Logs l (dup ++ l)
    Doubled-Logs dup l (inl q) =
        subst (λ d. Logs l (d ++ l)) (sym q) (Stutters-refl (SomeRan e f codec redis ran k) l)
    Doubled-Logs dup l (inr (x, rest, one, first, late)) =
        subst (λ d. Logs l (d ++ l)) (sym one)
          (subst (λ m. Logs m (x ∷ m)) (sym first)
            (Stutters-again (SomeRan e f codec redis ran k) x rest late))

    Parked-Logs :
        (t : T) (p p' : Process e f codec redis ran) (items' sent left dup box : List T)
        → items' ≡ items k p.conn.store ++ (sent ++ dup)
        → sent ++ left ≡ p.outboxes k
        → box ≡ left ++ t ∷ []
        → Doubled e f codec redis ran k dup (left ++ t ∷ [])
        → Logs (log p ++ t ∷ []) (items' ++ box)
    Parked-Logs t p p' items' sent left dup box grown whole boxed doubled =
        let before : items k p.conn.store ++ (sent ++ (left ++ t ∷ [])) ≡ log p ++ t ∷ [] =
          ap (λ l. items k p.conn.store ++ l)
            (sym (append_assoc sent left (t ∷ [])) ∙ ap (λ l. l ++ t ∷ []) whole)
          ∙ sym (append_assoc (items k p.conn.store) (p.outboxes k) (t ∷ [])) in
        let after : items k p.conn.store ++ (sent ++ (dup ++ (left ++ t ∷ []))) ≡ items' ++ box =
          ap (λ l. items k p.conn.store ++ l) (sym (append_assoc sent dup (left ++ t ∷ [])))
          ∙ sym (append_assoc (items k p.conn.store) (sent ++ dup) (left ++ t ∷ []))
          ∙ ap (λ l. l ++ (left ++ t ∷ [])) (sym grown)
          ∙ ap (λ l. items' ++ l) (sym boxed) in
        subst (λ l. Logs l (items' ++ box)) before
          (subst (Logs (items k p.conn.store ++ (sent ++ (left ++ t ∷ [])))) after (
            Stutters-prefix (SomeRan e f codec redis ran k) (items k p.conn.store) _ _ (
              Stutters-prefix (SomeRan e f codec redis ran k) sent _ _
                (Doubled-Logs dup (left ++ t ∷ []) doubled))))

    sizes : (sent left box : List T) → sent ++ left ≡ box → length sent + length left ≡ length box
    sizes sent left box q = sym (length-append sent left) ∙ ap length q

    enqueue_event-log :
        (payload : Dict T) (p : Process e f codec redis ran)
        → suc (length (p.outboxes k)) ≤ 10000
        → Logs
            (log p ++ codec.dumps payload ∷ [])
            (log (enqueue_event e f codec redis ran k payload p).1)
          × (length ((enqueue_event e f codec redis ran k payload p).1.outboxes k)
              ≤ suc (length (p.outboxes k)))
    enqueue_event-log payload p h =
        let p' = (enqueue_event e f codec redis ran k payload p).1 in
        let t = codec.dumps payload in
        let (how, others) = enqueue_event-Enqueued e f codec redis ran k payload p in
        elim how [
          | inl (r, grown, empty) ↦ (
            subst (Logs (log p ++ t ∷ []))
                (append_assoc (items k p.conn.store) (p.outboxes k) (t ∷ [])
                  ∙ sym grown
                  ∙ sym (append-nil (items k p'.conn.store))
                  ∙ ap (λ l. items k p'.conn.store ++ l) (sym empty))
                (Stutters-refl (SomeRan e f codec redis ran k) (log p ++ t ∷ [])),
            omega (arith, ap length empty),
          )
          | inr parked ↦
              let size = sizes parked.sent parked.left (p.outboxes k) parked.whole in
              let room =
                roomy-Boxed 10000 t parked.left (p'.outboxes k) parked.boxed (omega arith) in
              (
                Parked-Logs t p p' (items k p'.conn.store) parked.sent parked.left parked.dup
                    (p'.outboxes k) parked.grown parked.whole room parked.doubled,
                omega (arith, ap length room, length-append parked.left (t ∷ [])),
              )
        ]

    -- The abstract queue: a list of texts that grows at its end.
    abbrev pub enqueue_log : List (Dict T) → List T → List T
    enqueue_log [] l = l
    enqueue_log (payload ∷ payloads) l = enqueue_log payloads (l ++ codec.dumps payload ∷ [])

    abbrev pub enqueue_all :
        List (Dict T) → Process e f codec redis ran → Process e f codec redis ran
    enqueue_all [] p = p
    enqueue_all (payload ∷ payloads) p =
        enqueue_all payloads (enqueue_event e f codec redis ran k payload p).1

    enqueue_log-Logs :
        (payloads : List (Dict T)) (l l' : List T)
        → Logs l l'
        → Logs (enqueue_log payloads l) (enqueue_log payloads l')
    enqueue_log-Logs [] l l' h = h
    enqueue_log-Logs (payload ∷ payloads) l l' h =
        enqueue_log-Logs payloads (l ++ codec.dumps payload ∷ []) (l' ++ codec.dumps payload ∷ [])
          (Stutters-suffix (SomeRan e f codec redis ran k) (codec.dumps payload ∷ []) l l' h)

    -- Any sequence of calls of enqueue_event refines the abstract queue, whatever round trips fail, as
    -- long as the outbox has room for the events. What Redis holds followed by what the outbox holds
    -- is the log to which the events were added in their order: none is lost or overtaken, and an
    -- event is repeated, directly behind itself, only if the server served a round trip that raised.
    pub enqueue_all-refines :
        (payloads : List (Dict T)) (p : Process e f codec redis ran)
        → length (p.outboxes k) + length payloads ≤ 10000
        → Logs (enqueue_log payloads (log p)) (log (enqueue_all payloads p))
    enqueue_all-refines [] p h = Stutters-refl (SomeRan e f codec redis ran k) (log p)
    enqueue_all-refines (payload ∷ payloads) p h =
        let (step, size) = enqueue_event-log payload p (omega arith) in
        let p' = (enqueue_event e f codec redis ran k payload p).1 in
        Stutters-trans (SomeRan e f codec redis ran k) _ (enqueue_log payloads (log p')) _
          (enqueue_log-Logs payloads (log p ++ codec.dumps payload ∷ []) (log p') step)
          (enqueue_all-refines payloads p' (omega arith))

    -- No outbox ever holds more than 10000 events.
    pub enqueue_all-bounded :
        (payloads : List (Dict T)) (p : Process e f codec redis ran)
        → length (p.outboxes k) ≤ 10000
        → length ((enqueue_all payloads p).outboxes k) ≤ 10000
    enqueue_all-bounded [] p h = h
    enqueue_all-bounded (payload ∷ payloads) p h =
        enqueue_all-bounded payloads (enqueue_event e f codec redis ran k payload p).1 (
          let (how, others) = enqueue_event-Enqueued e f codec redis ran k payload p in
          elim how [
            | inl (r, grown, empty) ↦ omega (arith, ap length empty)
            | inr parked ↦
                let size = sizes parked.sent parked.left (p.outboxes k) parked.whole in
                length-Boxed 10000 (codec.dumps payload) parked.left _ parked.boxed (omega arith)
          ])
