-- ===== src/Core/Redis/Values.antt =====
-- Keys that hold a number, as the Redis documentation describes them: INCR, SET with an expiry,
-- EXPIRE, DEL.
use janus_server.Prelude.{ℕ, ◌+◌, ◌≡◌, refl, Option, none, some, Eq, if◌then◌else◌}

abbrev pub or_zero : Option ℕ → ℕ
or_zero none = 0
or_zero (some n) = n

pub record Values (K : Type 0) (e : Eq K) : Type 1 where
  pub Store : Type 0
  pub value : K → Store → Option ℕ
  pub incr : K → Store → Store
  pub set : K → ℕ → ℕ → Store → Store
  pub expire : K → ℕ → Store → Store
  pub delete : K → Store → Store
  pub value-incr :
      (j k : K) (s : Store)
      → value j (incr k s) ≡ (if e.same j k then some (or_zero (value k s) + 1) else value j s)
  pub value-set :
      (j k : K) (n ex : ℕ) (s : Store)
      → value j (set k n ex s) ≡ (if e.same j k then some n else value j s)
  pub value-expire : (j k : K) (t : ℕ) (s : Store) → value j (expire k t s) ≡ value j s
  pub value-delete :
      (j k : K) (s : Store) → value j (delete k s) ≡ (if e.same j k then none else value j s)

-- A function from keys to values meets the interface.
abbrev pub plain_values : (K : Type 0) (e : Eq K) → Values K e
plain_values K e = record {
  Store = K → Option ℕ;
  value = λ k s. s k;
  incr = λ k s j. if e.same j k then some (or_zero (s k) + 1) else s j;
  set = λ k n ex s j. if e.same j k then some n else s j;
  expire = λ k t s. s;
  delete = λ k s j. if e.same j k then none else s j;
  value-incr = λ j k s. refl;
  value-set = λ j k n ex s. refl;
  value-expire = λ j k t s. refl;
  value-delete = λ j k s. refl;
}
