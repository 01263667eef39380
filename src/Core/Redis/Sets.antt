-- ===== src/Core/Redis/Sets.antt =====
-- Lists of members for each key, and a bucket for each key, meet the interface of sorted sets.
use janus_server.Prelude.{
  ℕ, min, ◌≤◌, ◌+◌, ◌≡◌, refl, inl, inr, Bool, true, false, not, ◌&&◌, Bool-cases, arith, Option,
  none, some, List, [], ◌∷◌, length, Eq, if◌then◌else◌,
}
use janus_server.Prelude.Int.{ℤ}
use janus_server.Core.Redis.Windows.{
  Bucket, Windows, later_than, lookup, keep, lookup-keep, length-keep,
}

abbrev pub Sets : Type 0 → Type 0 → Type 0
Sets K M = (K → List (M × ℕ)) × (K → Option Bucket) × (K → Option ℕ)

abbrev pub is_some : Option ℕ → Bool
is_some none = false
is_some (some t) = true

module _ {M : Type 0} (f : Eq M) where
  abbrev pub remove : M → List (M × ℕ) → List (M × ℕ)
  remove m l = keep f (λ n. not (f.same n m)) l

  -- The members whose score is above b.
  abbrev pub newer : ℤ → List (M × ℕ) → List (M × ℕ)
  newer b l = keep f (λ n. is_some (later_than b (lookup f n l))) l

  pub lookup-remove :
      (n m : M) (l : List (M × ℕ))
      → lookup f n (remove m l) ≡ (if f.same n m then none else lookup f n l)
  lookup-remove n m l = elim (Bool-cases (f.same n m)) [
    | inl e ↦ rw (lookup-keep f (λ n. not (f.same n m)) n l, e) refl
    | inr e ↦ rw (lookup-keep f (λ n. not (f.same n m)) n l, e) refl
  ]

  pub lookup-newer :
      (n : M) (b : ℤ) (l : List (M × ℕ)) → lookup f n (newer b l) ≡ later_than b (lookup f n l)
  lookup-newer n b l =
      rw (lookup-keep f (λ n. is_some (later_than b (lookup f n l))) n l) (go (lookup f n l))
    where
      go : (o : Option ℕ) → (if is_some (later_than b o) then o else none) ≡ later_than b o
      go none = refl
      go (some t) = ground arith

  abbrev pub earliest : List (M × ℕ) → Option ℕ
  earliest [] = none
  earliest ((m, t) ∷ l) = elim (earliest l) [ none ↦ some t | some u ↦ some (min t u) ]

  module _ {K : Type 0} (e : Eq K) where
    -- A change of the list at the key k.
    abbrev pub change_at : K → (List (M × ℕ) → List (M × ℕ)) → Sets K M → Sets K M
    change_at k g s = (λ j. if e.same j k then g (s.0 j) else s.0 j, s.1, s.2)

    pub score_zadd :
        (same : Bool) (n m : M) (t : ℕ) (l : List (M × ℕ))
        → lookup f n (if same then (m, t) ∷ remove m l else l)
          ≡ (if same && f.same n m then some t else lookup f n l)
    score_zadd false n m t l = refl
    score_zadd true n m t l = elim (Bool-cases (f.same n m)) [
      | inl e ↦ rw e refl
      | inr e ↦ rw (lookup-remove n m l, e) refl
    ]

    pub score_zrem :
        (same : Bool) (n m : M) (l : List (M × ℕ))
        → lookup f n (if same then remove m l else l)
          ≡ (if same && f.same n m then none else lookup f n l)
    score_zrem false n m l = refl
    score_zrem true n m l = lookup-remove n m l

    pub score_newer :
        (same : Bool) (n : M) (b : ℤ) (l : List (M × ℕ))
        → lookup f n (if same then newer b l else l)
          ≡ (if same then later_than b (lookup f n l) else lookup f n l)
    score_newer false n b l = refl
    score_newer true n b l = lookup-newer n b l

    same_self : (k : K) → e.same k k ≡ true
    same_self k = (e.same_iff k k).1 refl

    pub card_zadd :
        (k : K) (m : M) (t : ℕ) (l : List (M × ℕ))
        → length (if e.same k k then (m, t) ∷ remove m l else l) ≤ length l + 1
    card_zadd k m t l = rw (same_self k) (omega (arith, length-keep f (λ n. not (f.same n m)) l))

    abbrev pub plain_sets : Windows K M e f
    plain_sets = record {
      Store = Sets K M;
      score = λ k n s. lookup f n (s.0 k);
      card = λ k s. length (s.0 k);
      oldest = λ k s. earliest (s.0 k);
      bucket = λ k s. s.1 k;
      pttl = λ k s. s.2 k;
      zadd = λ k t m. change_at k (λ l. (m, t) ∷ remove m l);
      zrem = λ k m. change_at k (remove m);
      zremrangebyscore = λ k b. change_at k (newer b);
      hset = λ k b s. (s.0, λ j. if e.same j k then some b else s.1 j, s.2);
      pexpire = λ k t s. (s.0, s.1, λ j. if e.same j k then some t else s.2 j);
      score-zadd = λ j k n m t s. score_zadd (e.same j k) n m t (s.0 j);
      score-zrem = λ j k n m s. score_zrem (e.same j k) n m (s.0 j);
      score-zremrangebyscore = λ j k n b s. score_newer (e.same j k) n b (s.0 j);
      score-hset = λ j k n b s. refl;
      score-pexpire = λ j k n t s. refl;
      card-zadd = λ k m t s. card_zadd k m t (s.0 k);
      card-pexpire = λ j k t s. refl;
      bucket-hset = λ j k b s. refl;
      bucket-pexpire = λ j k t s. refl;
      pttl-pexpire = λ j k t b s. refl;
    }
