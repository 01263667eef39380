-- ===== src/Gateway/Quota/Unscripted.antt =====
-- src/gateway/quota.py: how the quota check without a script ends.
use janus_server.Prelude.{
  ℕ, ◌≡◌, refl, sym, ap, inl, inr, Bool, Bool-cases, List, [], ◌∷◌, ◌++◌, ◌∙◌, Eq,
}
use mathlib.Core.List.{append-nil}
use janus_server.Prelude.Int.{ℤ, pos, int_laws, ◌+ℤ◌, ◌-ℤ◌}
use janus_server.Core.Redis.{Conn, Result, ok, err}
use janus_server.Core.Redis.Rules.{late_command-post, bind-post}
use janus_server.Core.Redis.Counters.{Counters, at_key}
use janus_server.Gateway.Quota.Defs.{QuotaKey, QuotaError}
use janus_server.Gateway.Quota.Script.{roll_back}
use janus_server.Gateway.Quota.Ledger.{amount_on, amount_on-append}
use janus_server.Gateway.Quota.Fallback.{increment, take_back}

module _ (e : Eq QuotaKey) (redis : Counters QuotaKey e) (ran : Conn redis.Store → Bool) where
  open redis use {
    Store, count, ttl, incrby, decrby, expire, count-incrby, count-decrby, count-expire, ttl-incrby,
    ttl-decrby,
  }

  -- Redis tells the two stores apart by no count and by no expiry.
  pub record SameCells (s t : Store) : Type 0 where
    pub counts : (j : QuotaKey) → count j s ≡ count j t
    pub ttls : (j : QuotaKey) → ttl j s ≡ ttl j t

  pub SameCells-refl : (s : Store) → SameCells s s
  SameCells-refl s = record { counts = λ j. refl; ttls = λ j. refl }

  at_key-minus :
      (j k : QuotaKey) (a : ℕ) (x : ℤ)
      → x +ℤ at_key e j k (pos 0 -ℤ pos a) ≡ x -ℤ at_key e j k (pos a)
  at_key-minus j k a x = elim (Bool-cases (e.same j k)) [
    | inl same ↦ rw same (omega int_laws)
    | inr other ↦ rw other (omega int_laws)
  ]

  incrby-SameCells :
      (key : QuotaKey) (a : ℕ) (s t : Store)
      → SameCells s t
      → SameCells (incrby key (pos 0 -ℤ pos a) s) (decrby key (pos a) t)
  incrby-SameCells key a s t h = record {
    counts = λ j.
        rw (count-incrby j key (pos 0 -ℤ pos a) s, h.counts j, count-decrby j key (pos a) t)
          (at_key-minus j key a (count j t));
    ttls = λ j. ttl-incrby j key _ s ∙ h.ttls j ∙ sym (ttl-decrby j key (pos a) t);
  }

  -- What is booked on the counters since the store s0.
  abbrev pub Holds : Store → List (QuotaKey × ℕ) → Store → Type 0
  Holds s0 l s = (j : QuotaKey) → count j s ≡ count j s0 +ℤ amount_on e j l

  -- One connected part of the bookings is left on the counters: those before it are taken back.
  pub record Partial (s0 : Store) (bookings : List (QuotaKey × ℕ)) (s : Store) : Type 0 where
    pub back : List (QuotaKey × ℕ)
    pub kept : List (QuotaKey × ℕ)
    pub later : List (QuotaKey × ℕ)
    pub whole : back ++ (kept ++ later) ≡ bookings
    pub holds : Holds s0 kept s

  module _ (s0 : Store) where
    pub booked_more :
        (l : List (QuotaKey × ℕ)) (key : QuotaKey) (a : ℕ) (s : Store)
        → Holds s0 l s
        → Holds s0 (l ++ (key, a) ∷ []) (incrby key (pos a) s)
    booked_more l key a s h j =
        rw (count-incrby j key (pos a) s, h j, amount_on-append e j l ((key, a) ∷ []))
          (omega int_laws)

    booked_less :
        (l : List (QuotaKey × ℕ)) (key : QuotaKey) (a : ℕ) (s : Store)
        → Holds s0 ((key, a) ∷ l) s
        → Holds s0 l (incrby key (pos 0 -ℤ pos a) s)
    booked_less l key a s h j =
        rw
          (
            count-incrby j key (pos 0 -ℤ pos a) s,
            h j,
            at_key-minus j key a (count j s0 +ℤ (at_key e j key (pos a) +ℤ amount_on e j l)),
          )
          (omega int_laws)

    -- Giving back what is booked.
    abbrev pub Given :
        List (QuotaKey × ℕ) → Store → Result QuotaError (Unit {0}) × Conn Store → Type 0
    Given l t (ok u, c) = SameCells c.store (roll_back e redis l t)
    Given l t (err x, c) = Partial s0 l c.store

    whole_of : (l : List (QuotaKey × ℕ)) (s : Store) → Holds s0 l s → Partial s0 l s
    whole_of l s h = record { back = []; kept = l; later = []; whole = append-nil l; holds = h }

    one_back :
        (b : QuotaKey × ℕ) (l : List (QuotaKey × ℕ)) (s : Store)
        → Partial s0 l s
        → Partial s0 (b ∷ l) s
    one_back b l s p = record {
      back = b ∷ p.back;
      kept = p.kept;
      later = p.later;
      whole = ap (λ l. b ∷ l) p.whole;
      holds = p.holds;
    }

    pub take_back-Given :
        (l : List (QuotaKey × ℕ)) (t : Store) (c : Conn Store)
        → SameCells c.store t
        → Holds s0 l c.store
        → Given l t (take_back e redis ran l c)
    unfolding take_back roll_back
    take_back-Given [] t c same h = same
    take_back-Given ((key, a) ∷ l) t c same h =
        bind-post Step (Given ((key, a) ∷ l) t) (increment e redis ran key (pos 0 -ℤ pos a))
          (λ _. take_back e redis ran l) c
          (late_command-post Step ran
            (λ s. (count key (incrby key (pos 0 -ℤ pos a) s), incrby key (pos 0 -ℤ pos a) s)) c
            (λ up. (incrby-SameCells key a c.store t same, booked_less l key a c.store h))
            (λ up. whole_of ((key, a) ∷ l) c.store h)
            (λ up served. one_back (key, a) l _ (whole_of l _ (booked_less l key a c.store h))))
          (λ n c' (same', h').
            further (take_back e redis ran l c')
              (take_back-Given l (decrby key (pos a) t) c' same' h'))
          (λ x c' p. p)
      where
        Step : Result QuotaError ℤ × Conn Store → Type 0
        Step (ok n, c') = SameCells c'.store (decrby key (pos a) t) × Holds s0 l c'.store
        Step (err x, c') = Partial s0 ((key, a) ∷ l) c'.store

        further :
            (o : Result QuotaError (Unit {0}) × Conn Store)
            → Given l (decrby key (pos a) t) o
            → Given ((key, a) ∷ l) t o
        further (ok u, c') g = g
        further (err x, c') p = one_back (key, a) l c'.store p
