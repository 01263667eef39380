-- ===== src/Core/Redis/Windows.antt =====
-- Sorted sets of members by time, and hashes that hold a bucket, as the Redis documentation
-- describes them: ZADD, ZREM, ZREMRANGEBYSCORE from -inf, ZCARD, HSET, PEXPIRE.
use janus_server.Prelude.{
  ℕ, ◌≤◌, ◌+◌, ◌≡◌, refl, inl, inr, ap, ◌∙◌, Bool, true, false, ◌&&◌, Bool-cases, arith, Option,
  none, some, List, [], ◌∷◌, length, Eq, if◌then◌else◌,
}
use janus_server.Prelude.Int.{ℤ, pos, leb_ℤ}

-- The fields of a hash, null where a field is missing.
pub record Bucket : Type 0 where
  pub tokens : Option ℤ
  pub ts : Option ℕ

-- A score that ZREMRANGEBYSCORE up to b leaves.
abbrev pub later_than : ℤ → Option ℕ → Option ℕ
later_than b none = none
later_than b (some t) = if leb_ℤ (pos t) b then none else some t

pub record Windows (K M : Type 0) (e : Eq K) (f : Eq M) : Type 1 where
  pub Store : Type 0
  pub score : K → M → Store → Option ℕ
  pub card : K → Store → ℕ
  -- The score of the first member of ZRANGE 0 0.
  pub oldest : K → Store → Option ℕ
  pub bucket : K → Store → Option Bucket
  -- The milliseconds after which a key is to expire.
  pub pttl : K → Store → Option ℕ
  pub zadd : K → ℕ → M → Store → Store
  pub zrem : K → M → Store → Store
  pub zremrangebyscore : K → ℤ → Store → Store
  pub hset : K → Bucket → Store → Store
  pub pexpire : K → ℕ → Store → Store
  pub score-zadd :
      (j k : K) (n m : M) (t : ℕ) (s : Store)
      → score j n (zadd k t m s) ≡ (if e.same j k && f.same n m then some t else score j n s)
  pub score-zrem :
      (j k : K) (n m : M) (s : Store)
      → score j n (zrem k m s) ≡ (if e.same j k && f.same n m then none else score j n s)
  pub score-zremrangebyscore :
      (j k : K) (n : M) (b : ℤ) (s : Store)
      → score j n (zremrangebyscore k b s)
        ≡ (if e.same j k then later_than b (score j n s) else score j n s)
  pub score-hset : (j k : K) (n : M) (b : Bucket) (s : Store) → score j n (hset k b s) ≡ score j n s
  pub score-pexpire :
      (j k : K) (n : M) (t : ℕ) (s : Store) → score j n (pexpire k t s) ≡ score j n s
  pub card-zadd : (k : K) (m : M) (t : ℕ) (s : Store) → card k (zadd k t m s) ≤ card k s + 1
  pub card-pexpire : (j k : K) (t : ℕ) (s : Store) → card j (pexpire k t s) ≡ card j s
  pub bucket-hset :
      (j k : K) (b : Bucket) (s : Store)
      → bucket j (hset k b s) ≡ (if e.same j k then some b else bucket j s)
  pub bucket-pexpire : (j k : K) (t : ℕ) (s : Store) → bucket j (pexpire k t s) ≡ bucket j s
  -- PEXPIRE of a key that HSET has just written sets its expiry.
  pub pttl-pexpire :
      (j k : K) (t : ℕ) (b : Bucket) (s : Store)
      → pttl j (pexpire k t (hset k b s)) ≡ (if e.same j k then some t else pttl j s)

-- Lists of members for each key meet the interface.
module _ {M : Type 0} (f : Eq M) where
  abbrev pub lookup : M → List (M × ℕ) → Option ℕ
  lookup n [] = none
  lookup n ((m, t) ∷ l) = let rest = lookup n l in if f.same n m then some t else rest

  abbrev pub keep : (M → Bool) → List (M × ℕ) → List (M × ℕ)
  keep p [] = []
  keep p ((m, t) ∷ l) = let rest = keep p l in if p m then (m, t) ∷ rest else rest

  pub lookup-keep :
      (p : M → Bool) (n : M) (l : List (M × ℕ))
      → lookup n (keep p l) ≡ (if p n then lookup n l else none)
  lookup-keep p n [] = ground arith
  lookup-keep p n ((m, t) ∷ l) = head (p m) (f.same n m) refl refl (lookup-keep p n l)
    where
      head :
          (kept same : Bool)
          → p m ≡ kept
          → f.same n m ≡ same
          → lookup n (keep p l) ≡ (if p n then lookup n l else none)
          → lookup n (if kept then (m, t) ∷ keep p l else keep p l)
            ≡ (if p n then (if same then some t else lookup n l) else none)
      head true true e e' h = rw (e', ap p ((f.same_iff n m).0 e'), e) refl
      head true false e e' h = rw (e', h) refl
      head false true e e' h = h ∙ rw (ap p ((f.same_iff n m).0 e'), e) refl
      head false false e e' h = h

  pub length-keep : (p : M → Bool) (l : List (M × ℕ)) → length (keep p l) ≤ length l
  length-keep p [] = omega arith
  length-keep p ((m, t) ∷ l) = elim (Bool-cases (p m)) [
    | inl kept ↦ rw kept (omega (arith, length-keep p l))
    | inr gone ↦ rw gone (omega (arith, length-keep p l))
  ]
