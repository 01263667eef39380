-- ===== src/Gateway/Events/Replay.antt =====
-- What enqueue_event does for each of its answers.
use janus_server.Prelude.{
  ℕ, suc, ◌≤◌, ◌≡◌, ◌≢◌, refl, sym, ap, ◌∙◌, ◌⊎◌, inl, inr, leb, arith, Bool, true, false, List, [],
  ◌∷◌, ◌++◌, length, length-append, Eq, if◌then◌else◌,
}
use mathlib.Core.Path.{subst}
use mathlib.Core.List.{append_assoc, append-nil}
use janus_server.Core.Redis.{Conn, Result, ok, err}
use janus_server.Core.Redis.Rules.{late_command-post}
use janus_server.Core.Redis.Queues.{Queues, rpush, items-put_self, items-put_apart}
use janus_server.Gateway.Events.Defs.{QueueKey, outbox_max_per_queue, Dict, EventCodec, EventError}
use janus_server.Gateway.Events.Outbox.{
  Process, append, tail, push, set_box, after_push, flush_box, after_last, after_flush,
  enqueue_event,
}

module _ {ℓ} {T : Type ℓ} where
  -- What the box holds after an append: all, or all but its oldest item if it was full.
  abbrev pub Boxed : ℕ → T → List T → List T → Type ℓ
  Boxed n t left box =
      ((suc (length left) ≤ n) × (box ≡ left ++ t ∷ []))
      ⊎ ((oldest : T) × (rest : List T) × (left ≡ oldest ∷ rest)
          × (n ≤ length left)
          × (box ≡ rest ++ t ∷ []))

  append-Boxed : (n : ℕ) (t : T) (left : List T) → 1 ≤ n → Boxed n t left (append n t left)
  unfolding append
  append-Boxed n t left some_room = go left (leb n (length left)) refl
    where
      go :
          (left : List T) (b : Bool)
          → leb n (length left) ≡ b
          → Boxed n t left (if b then tail (left ++ t ∷ []) else left ++ t ∷ [])
      go left false q = inl (ground arith, refl)
      go [] true q = absurd (ground arith)
      go (x ∷ rest) true q = inr (x, rest, refl, ground arith, refl)

  pub length-Boxed :
      (n : ℕ) (t : T) (left box : List T) → Boxed n t left box → length left ≤ n → length box ≤ n
  length-Boxed n t left box (inl (room, q)) h =
      omega (arith, ap length q, length-append left (t ∷ []))
  length-Boxed n t left box (inr (oldest, rest, p, full, q)) h =
      omega (arith, ap length q, ap length p, length-append rest (t ∷ []))

  pub roomy-Boxed :
      (n : ℕ) (t : T) (left box : List T)
      → Boxed n t left box
      → suc (length left) ≤ n
      → box ≡ left ++ t ∷ []
  roomy-Boxed n t left box (inl (room, q)) h = q
  roomy-Boxed n t left box (inr (oldest, rest, p, full, q)) h = absurd (omega arith)

module _ {T : Type 0} (e : Eq QueueKey) (f : Eq T) (codec : EventCodec T)
    (redis : Queues QueueKey T e) (ran : Conn redis.Store → Bool) where
  open redis use {Store, items}

  module _ (k : QueueKey) where
    abbrev Others : Store → Store → Type 0
    Others s s' = (j : QueueKey) → j ≢ k → items j s' ≡ items j s

    -- Some round trip that raised was served.
    abbrev pub SomeRan : Type 0
    SomeRan = (c : Conn Store) × (ran c ≡ true)

    -- Nothing, or the first item of a list, whose push raised and was served all the same.
    abbrev pub Doubled : List T → List T → Type 0
    Doubled dup l =
        (dup ≡ []) ⊎ ((x : T) × (rest : List T) × (dup ≡ x ∷ []) × (l ≡ x ∷ rest) × SomeRan)

    -- What a push does: the item stands at the end; or it raises, and then it may stand there too.
    abbrev Pushed : T → Store → Result EventError (Unit {0}) × Conn Store → Type 0
    Pushed t s (ok u, c) = (items k c.store ≡ items k s ++ t ∷ []) × Others s c.store
    Pushed t s (err x, c) =
        (dup : List T) × (items k c.store ≡ items k s ++ dup)
        × ((dup ≡ []) ⊎ ((dup ≡ t ∷ []) × SomeRan))
        × Others s c.store

    rpush-Others : (t : T) (s : Store) → Others s (rpush e f redis k t s)
    rpush-Others t s j ne = items-put_apart e f redis j k (items k s ++ t ∷ []) s ne

    push-Pushed : (t : T) (c : Conn Store) → Pushed t c.store (push e f codec redis ran k t c)
    push-Pushed t c =
        late_command-post (Pushed t c.store) ran (λ s. (tt, rpush e f redis k t s)) c
          (λ up. (
            items-put_self e f redis k (items k c.store ++ t ∷ []) c.store,
            rpush-Others t c.store,
          ))
          (λ up. ([], sym (append-nil (items k c.store)), inl refl, λ j ne. refl))
          (λ up served. (
            t ∷ [],
            items-put_self e f redis k (items k c.store ++ t ∷ []) c.store,
            inr (refl, (c, served)),
            rpush-Others t c.store,
          ))

    -- The flush sends a first part of the box, in order, and keeps the rest.
    record Flushed (box : List T) (s : Store) (o : Bool × List T × Conn Store) : Type 0 where
      sent : List T
      dup : List T
      whole : sent ++ o.1 ≡ box
      grown : items k o.2.store ≡ items k s ++ (sent ++ dup)
      done : o.0 ≡ true → (o.1 ≡ []) × (dup ≡ [])
      doubled : Doubled dup o.1
      others : Others s o.2.store

    flush_box-Flushed :
        (box : List T) (c : Conn Store)
        → Flushed box c.store (flush_box e f codec redis ran k box c)
    unfolding flush_box
    flush_box-Flushed [] c = record {
      sent = [];
      dup = [];
      whole = refl;
      grown = sym (append-nil (items k c.store));
      done = λ h. (refl, refl);
      doubled = inl refl;
      others = λ j ne. refl;
    }
    flush_box-Flushed (item ∷ box) c =
        go (push e f codec redis ran k item c) (push-Pushed item c) (flush_box-Flushed box)
      where
        doubled_of :
            (dup : List T) → (dup ≡ []) ⊎ ((dup ≡ item ∷ []) × SomeRan) → Doubled dup (item ∷ box)
        doubled_of dup (inl none_sent) = inl none_sent
        doubled_of dup (inr (one, late)) = inr (item, box, one, refl, late)

        go :
            (o : Result EventError (Unit {0}) × Conn Store)
            → Pushed item c.store o
            → ((c' : Conn Store) → Flushed box c'.store (flush_box e f codec redis ran k box c'))
            → Flushed (item ∷ box) c.store (
                after_push e f codec redis ran item box o
                  (λ c'. flush_box e f codec redis ran k box c'))
        go (ok u, c') (p, others) ih =
            let r = ih c' in
            record {
              sent = item ∷ r.sent;
              dup = r.dup;
              whole = ap (λ l. item ∷ l) r.whole;
              grown =
                  r.grown
                  ∙ ap (λ l. l ++ (r.sent ++ r.dup)) p
                  ∙ append_assoc (items k c.store) (item ∷ []) (r.sent ++ r.dup);
              done = r.done;
              doubled = r.doubled;
              others = λ j ne. r.others j ne ∙ others j ne;
            }
        go (err x, c') (dup, p, how, others) ih = record {
          sent = [];
          dup = dup;
          whole = refl;
          grown = p;
          done = λ h. absurd cc;
          doubled = doubled_of dup how;
          others = others;
        }

    -- How enqueue_event leaves the process, by its answer.
    abbrev pub Sent : T → Process e f codec redis ran → Bool × Process e f codec redis ran → Type 0
    Sent t p o =
        (o.0 ≡ true)
        × (items k o.1.conn.store ≡ items k p.conn.store ++ (p.outboxes k ++ t ∷ []))
        × (o.1.outboxes k ≡ [])

    pub record Parked (t : T) (p : Process e f codec redis ran)
        (o : Bool × Process e f codec redis ran) : Type 0 where
      pub sent : List T
      pub left : List T
      pub dup : List T
      pub answer : o.0 ≡ false
      pub whole : sent ++ left ≡ p.outboxes k
      pub grown : items k o.1.conn.store ≡ items k p.conn.store ++ (sent ++ dup)
      pub doubled : Doubled dup (left ++ t ∷ [])
      pub boxed : Boxed 10000 t left (o.1.outboxes k)

    abbrev pub Enqueued :
        T → Process e f codec redis ran → Bool × Process e f codec redis ran → Type 0
    Enqueued t p o =
        (Sent t p o ⊎ Parked t p o)
        × ((j : QueueKey)
            → j ≢ k
            → (items j o.1.conn.store ≡ items j p.conn.store) × (o.1.outboxes j ≡ p.outboxes j))

    set_box_self :
        (box : List T) (boxes : QueueKey → List T) → set_box e f codec redis ran k box boxes k ≡ box
    set_box_self box boxes = ap (λ b. if b then box else boxes k) ((e.same_iff k k).1 refl)

    set_box_apart :
        (j : QueueKey) (box : List T) (boxes : QueueKey → List T)
        → j ≢ k
        → set_box e f codec redis ran k box boxes j ≡ boxes j
    set_box_apart j box boxes ne = go (e.same j k) refl
      where
        go : (b : Bool) → e.same j k ≡ b → (if b then box else boxes j) ≡ boxes j
        go true q = absurd (ne ((e.same_iff j k).0 q))
        go false q = refl

    parked_box :
        (t : T) (left : List T) (boxes : QueueKey → List T)
        → Boxed 10000 t left
            (set_box e f codec redis ran k (append outbox_max_per_queue t left) boxes k)
    parked_box t left boxes =
        subst (Boxed 10000 t left) (sym (set_box_self (append outbox_max_per_queue t left) boxes))
          (append-Boxed 10000 t left (omega arith))

    Doubled-append : (t : T) (dup left : List T) → Doubled dup left → Doubled dup (left ++ t ∷ [])
    Doubled-append t dup left (inl q) = inl q
    Doubled-append t dup left (inr (x, rest, one, first, late)) =
        inr (x, rest ++ t ∷ [], one, ap (λ l. l ++ t ∷ []) first, late)

    after_flush-Enqueued :
        (t : T) (p : Process e f codec redis ran) (o : Bool × List T × Conn Store)
        → Flushed (p.outboxes k) p.conn.store o
        → Enqueued t p (after_flush e f codec redis ran k t p.outboxes o)
    after_flush-Enqueued t p (true, left, c) r =
        go (push e f codec redis ran k t c) (push-Pushed t c)
      where
        grown : items k c.store ≡ items k p.conn.store ++ r.sent
        grown =
            r.grown
            ∙ ap (λ l. items k p.conn.store ++ (r.sent ++ l)) (r.done refl).1
            ∙ ap (λ l. items k p.conn.store ++ l) (append-nil r.sent)

        go :
            (o : Result EventError (Unit {0}) × Conn Store)
            → Pushed t c.store o
            → Enqueued t p (after_last e f codec redis ran k t p.outboxes left o)
        go (ok u, c') (pushed, others') = (
          inl (
            refl,
            pushed
                ∙ ap (λ l. l ++ t ∷ []) grown
                ∙ append_assoc (items k p.conn.store) r.sent (t ∷ [])
                ∙ ap (λ l. items k p.conn.store ++ (l ++ t ∷ []))
                    (sym (append-nil r.sent)
                      ∙ ap (λ l. r.sent ++ l) (sym (r.done refl).0)
                      ∙ r.whole),
            set_box_self left p.outboxes ∙ (r.done refl).0,
          ),
          λ j ne. (others' j ne ∙ r.others j ne, set_box_apart j left p.outboxes ne),
        )
        go (err x, c') (dup, pushed, how, others') = (
          inr (record {
            sent = r.sent;
            left = left;
            dup = dup;
            answer = refl;
            whole = r.whole;
            grown =
                pushed ∙ ap (λ l. l ++ dup) grown ∙ append_assoc (items k p.conn.store) r.sent dup;
            doubled = doubled_last dup how;
            boxed = parked_box t left p.outboxes;
          }),
          λ j ne. (
            others' j ne ∙ r.others j ne,
            set_box_apart j (append outbox_max_per_queue t left) p.outboxes ne,
          ),
        )
          where
            doubled_last :
                (dup : List T)
                → (dup ≡ []) ⊎ ((dup ≡ t ∷ []) × SomeRan)
                → Doubled dup (left ++ t ∷ [])
            doubled_last dup (inl none_sent) = inl none_sent
            doubled_last dup (inr (one, late)) =
                inr (t, [], one, ap (λ l. l ++ t ∷ []) (r.done refl).0, late)
    after_flush-Enqueued t p (false, left, c) r = (
      inr (record {
        sent = r.sent;
        left = left;
        dup = r.dup;
        answer = refl;
        whole = r.whole;
        grown = r.grown;
        doubled = Doubled-append t r.dup left r.doubled;
        boxed = parked_box t left p.outboxes;
      }),
      λ j ne. (r.others j ne, set_box_apart j (append outbox_max_per_queue t left) p.outboxes ne),
    )

    -- enqueue_event returns, whatever round trips fail. If it answers true, then the queue has grown
    -- by the whole outbox and then the event, and the outbox is empty. If it answers false, a first
    -- part of the outbox has moved to the end of the queue in order, and the event stands at the end
    -- of the rest; the oldest item of the rest is dropped if these were 10000. Behind the part that
    -- has moved, the item whose push raised may stand in the queue too, if the server has served it
    -- all the same. Other queues and their outboxes are as before.
    pub enqueue_event-Enqueued :
        (payload : Dict T) (p : Process e f codec redis ran)
        → Enqueued (codec.dumps payload) p (enqueue_event e f codec redis ran k payload p)
    unfolding enqueue_event
    enqueue_event-Enqueued payload p =
        after_flush-Enqueued (codec.dumps payload) p _ (flush_box-Flushed (p.outboxes k) p.conn)
