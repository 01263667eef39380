-- ===== src/Core/Redis/Counters.antt =====
-- Integer keys with an expiry, as the Redis documentation describes them: GET, INCRBY, DECRBY,
-- EXPIRE. A key that is missing counts as 0.
use janus_server.Prelude.{
  ℕ, ◌≡◌, refl, inl, inr, Bool-cases, arith, Option, some, Eq, if◌then◌else◌,
}
use janus_server.Prelude.Int.{ℤ, pos, ◌+ℤ◌, ◌-ℤ◌, int_laws}

-- The amount d, if the two keys are one.
abbrev pub at_key : {K : Type 0} → Eq K → K → K → ℤ → ℤ
at_key e j k d = if e.same j k then d else pos 0

pub at_key-zero : {K : Type 0} (e : Eq K) (j k : K) → at_key e j k (pos 0) ≡ pos 0
at_key-zero e j k = ground arith

pub at_key-+ℤ :
    {K : Type 0} (e : Eq K) (j k : K) (c d : ℤ)
    → at_key e j k c +ℤ at_key e j k d ≡ at_key e j k (c +ℤ d)
at_key-+ℤ e j k c d = elim (Bool-cases (e.same j k)) [
  | inl same ↦ rw same
  | inr other ↦ rw other (omega int_laws)
]

pub record Counters (K : Type 0) (e : Eq K) : Type 1 where
  pub Store : Type 0
  pub count : K → Store → ℤ
  -- The seconds that a key has left; `none` for a key that does not expire, or is not there.
  pub ttl : K → Store → Option ℕ
  pub incrby : K → ℤ → Store → Store
  pub decrby : K → ℤ → Store → Store
  pub expire : K → ℕ → Store → Store
  pub count-incrby :
      (j k : K) (d : ℤ) (s : Store) → count j (incrby k d s) ≡ count j s +ℤ at_key e j k d
  pub count-decrby :
      (j k : K) (d : ℤ) (s : Store) → count j (decrby k d s) ≡ count j s -ℤ at_key e j k d
  pub count-expire : (j k : K) (t : ℕ) (s : Store) → count j (expire k t s) ≡ count j s
  -- INCRBY and DECRBY keep the expiry of a key; EXPIRE of a key that was just written sets it.
  pub ttl-incrby : (j k : K) (d : ℤ) (s : Store) → ttl j (incrby k d s) ≡ ttl j s
  pub ttl-decrby : (j k : K) (d : ℤ) (s : Store) → ttl j (decrby k d s) ≡ ttl j s
  pub ttl-expire :
      (j k : K) (t : ℕ) (d : ℤ) (s : Store)
      → ttl j (expire k t (incrby k d s)) ≡ (if e.same j k then some t else ttl j s)

-- Functions from keys to a count and an expiry meet the interface.
abbrev pub Cells : Type 0 → Type 0
Cells K = (K → ℤ) × (K → Option ℕ)

abbrev pub plain : (K : Type 0) (e : Eq K) → Counters K e
plain K e = record {
  Store = Cells K;
  count = λ k s. s.0 k;
  ttl = λ k s. s.1 k;
  incrby = λ k d s. (λ j. s.0 j +ℤ at_key e j k d, s.1);
  decrby = λ k d s. (λ j. s.0 j -ℤ at_key e j k d, s.1);
  expire = λ k t s. (s.0, λ j. if e.same j k then some t else s.1 j);
  count-incrby = λ j k d s. refl;
  count-decrby = λ j k d s. refl;
  count-expire = λ j k t s. refl;
  ttl-incrby = λ j k d s. refl;
  ttl-decrby = λ j k d s. refl;
  ttl-expire = λ j k t d s. refl;
}
