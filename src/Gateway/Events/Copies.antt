-- ===== src/Gateway/Events/Copies.antt =====
-- src/gateway/events.py: what a retry leaves of an event.
use Prim.Native.String.{String}
use janus_server.Prelude.{
  ◌≡◌, ◌≢◌, refl, sym, ap, ◌∙◌, ◌⊎◌, inl, inr, Bool, true, false, Bool-cases, Option, none, some,
  [], ◌∷◌, Eq, string_eq, if◌then◌else◌,
}
use janus_server.Prelude.Int.{ℤ, pos, ◌+ℤ◌}
use janus_server.Core.Redis.Queues.{Queues}
use janus_server.Gateway.Events.Defs.{
  QueueKey, JsonValue, text, number, Dict, field, assign, Decoded, dict, scalar, undecodable,
  EventCodec,
}
use janus_server.Gateway.Events.Pipeline.{as_object, count_attempt, increment_attempt}

same_ne : (k name : String) → name ≢ k → string_eq.same k name ≡ false
same_ne k name ne = elim (Bool-cases (string_eq.same k name)) [
  | inl same ↦ absurd (ne (sym ((string_eq.same_iff k name).0 same)))
  | inr other ↦ other
]

module _ {T : Type 0} where
  field-assign :
      (name n : String) (v : JsonValue T) (d : Dict T)
      → name ≢ n
      → field name (assign n v d) ≡ field name d
  unfolding field assign
  field-assign name n v [] ne = rw (same_ne n name ne) refl
  field-assign name n v ((k, w) ∷ d) ne =
      go (string_eq.same k n) (string_eq.same k name) refl refl (field-assign name n v d ne)
    where
      go :
          (a b : Bool)
          → string_eq.same k n ≡ a
          → string_eq.same k name ≡ b
          → field name (assign n v d) ≡ field name d
          → field name (if a then (k, v) ∷ d else (k, w) ∷ assign n v d)
            ≡ (if b then some w else field name d)
      go true true q q' ih =
          absurd (ne (sym ((string_eq.same_iff k name).0 q') ∙ (string_eq.same_iff k n).0 q))
      go true false q q' ih = rw q' refl
      go false true q q' ih = rw q' refl
      go false false q q' ih = rw q' ih

module _ {T : Type 0} (codec : EventCodec T) where
  open codec use {loads, loads-dumps}

  -- The object that a text stands for: its own, or one that wraps what is no object under "raw".
  abbrev pub Reading : T → Dict T → Type 0
  Reading t d =
      (loads t ≡ dict d)
      ⊎ ((v : JsonValue T) × (field "raw" d ≡ some v)
          × ((loads t ≡ scalar v) ⊎ ((loads t ≡ undecodable) × (v ≡ text t))))

  -- The second text is an object with the fields of the first, but for the number of attempts.
  pub record SameEvent (t t' : T) : Type 0 where
    pub before : Dict T
    pub after : Dict T
    pub reading : Reading t before
    pub copied : loads t' ≡ dict after
    pub same_fields : (name : String) → name ≢ "_attempt" → field name after ≡ field name before

  module _ (e : Eq QueueKey) (f : Eq T) (redis : Queues QueueKey T e) where
    as_object-Reading :
        (t : T) (o : Decoded T) → loads t ≡ o → Reading t (as_object e f codec redis t o)
    unfolding field
    as_object-Reading t (dict d) q = inl q
    as_object-Reading t (scalar v) q = inr (v, refl, inl q)
    as_object-Reading t undecodable q = inr (text t, refl, inr (q, refl))

    pub increment_attempt-SameEvent :
        (t t' : T) (attempts : ℤ)
        → increment_attempt e f codec redis t ≡ some (t', attempts)
        → SameEvent t t'
    unfolding increment_attempt
    increment_attempt-SameEvent t t' attempts h =
        let d = as_object e f codec redis t (loads t) in
        go d (as_object-Reading t (loads t) refl) (codec.int_or_zero (field "_attempt" d)) h
      where
        copy_eq :
            (u : T) (n : ℤ) → ◌≡◌ {A = Option (T × ℤ)} (some (u, n)) (some (t', attempts)) → u ≡ t'
        copy_eq u n q = cc

        go :
            (d : Dict T)
            → Reading t d
            → (o : Option ℤ) → count_attempt e f codec redis d o ≡ some (t', attempts)
            → SameEvent t t'
        go d r none h = absurd cc
        go d r (some n) h = record {
          before = d;
          after = assign "_attempt" (number (n +ℤ pos 1)) d;
          reading = r;
          copied = ap loads (sym (copy_eq _ _ h)) ∙ loads-dumps _;
          same_fields = λ name ne. field-assign name "_attempt" (number (n +ℤ pos 1)) d ne;
        }
