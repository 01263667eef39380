-- ===== src/Gateway/RateLimit/Buckets.antt =====
-- What one run of each script keeps: the limits of the windows, and the tokens of a bucket.
use mathlib.Core.Option
use janus_server.Prelude.{
  ℕ, ◌+◌, ◌*◌, ◌/◌, ◌≤◌, ◌≡◌, refl, ap, ◌∙◌, inl, inr, true, false, Bool-cases, Option, none, some,
  Eq, arith, leb,
}
use janus_server.Prelude.Int.{ℤ, pos, ◌+ℤ◌, ◌-ℤ◌, ltb_ℤ, ◌≤ℤ◌, int_laws, eq_of_parts}
use janus_server.Core.Redis.Windows.{Bucket, Windows}
use janus_server.Gateway.RateLimit.Keys.{RateKey}
use janus_server.Gateway.RateLimit.Scripts.{
  refill, min_ℤ, refilled, rpm_check, tpm_check, settle_bucket, tpm_settle, concurrent_check,
}

false_ne : false ≡ true → ⊥
false_ne h = cc

min_ℤ-le : (a : ℤ) (limit : ℕ) → min_ℤ a (pos limit) ≤ℤ pos limit
unfolding min_ℤ
min_ℤ-le a limit = ground arith

min_ℤ-le_left : (a : ℤ) (limit : ℕ) → min_ℤ (pos limit) a ≤ℤ pos limit
unfolding min_ℤ
min_ℤ-le_left a limit = ground arith

min_ℤ-small : (a : ℤ) (limit : ℕ) → a ≤ℤ pos limit → min_ℤ a (pos limit) ≡ a
unfolding min_ℤ
min_ℤ-small a limit h = elim (Bool-cases (ltb_ℤ (pos limit) a)) [
  | inl over ↦ absurd (ground arith)
  | inr fits ↦ rw fits refl
]

min_ℤ-small_left : (a : ℤ) (limit : ℕ) → a ≤ℤ pos limit → min_ℤ (pos limit) a ≡ a
unfolding min_ℤ
min_ℤ-small_left a limit h = elim (Bool-cases (ltb_ℤ a (pos limit))) [
  | inl below ↦ rw below refl
  | inr equal ↦ rw equal (eq_of_parts _ _ (ground arith))
]

refill-now : (n rate : ℕ) → refill (pos n -ℤ pos n) rate ≡ pos 0
unfolding refill
refill-now n rate = ap (λ d. refill d rate) (same_moment n) ∙ at_zero
  where
    same_moment : (n : ℕ) → pos n -ℤ pos n ≡ pos 0
    same_moment n = omega int_laws

    no_time : (rate : ℕ) → 0 * rate / 60000 ≡ 0
    no_time rate = omega arith

    at_zero : refill (pos 0) rate ≡ pos 0
    at_zero = ap pos (no_time rate)

module _ {M : Type 0} (e : Eq RateKey) (f : Eq M) (redis : Windows RateKey M e f) where
  open redis use {
    Store, card, bucket, zadd, pexpire, zremrangebyscore, card-zadd, card-pexpire, bucket-hset,
    bucket-pexpire, hset,
  }

  card_added :
      (key : RateKey) (now_ms ttl limit : ℕ) (member : M) (s : Store)
      → leb limit (card key s) ≡ false
      → card key (pexpire key ttl (zadd key now_ms member s)) ≤ limit
  card_added key now_ms ttl limit member s free =
      rw (card-pexpire key key ttl (zadd key now_ms member s))
        (ground (arith, card-zadd key member now_ms s))

  -- A window of requests that let one in holds no more entries than its limit.
  pub rpm_check-card :
      (key : RateKey) (now_ms window_ms limit : ℕ) (member : M) (s : Store)
      → (rpm_check e f redis key now_ms window_ms limit member s).0.0 ≡ true
      → card key (rpm_check e f redis key now_ms window_ms limit member s).1 ≤ limit
  unfolding rpm_check
  rpm_check-card key now_ms window_ms limit member s h =
      let s' = zremrangebyscore key (pos now_ms -ℤ pos window_ms) s in
      elim (Bool-cases (leb limit (card key s'))) [
        | inl full ↦ absurd (false_ne (rw full at h))
        | inr free ↦ rw free (card_added key now_ms (window_ms + 1000) limit member s' free)
      ]

  concurrent_check-card_at :
      (key : RateKey) (now_ms limit timeout_ms : ℕ) (member : M) (s : Store)
      → (concurrent_check e f redis key now_ms limit member timeout_ms s).0.0 ≡ true
      → card key (concurrent_check e f redis key now_ms limit member timeout_ms s).1 ≤ limit
  unfolding concurrent_check
  concurrent_check-card_at key now_ms limit timeout_ms member s h =
      let s' = zremrangebyscore key (pos now_ms -ℤ pos timeout_ms) s in
      elim (Bool-cases (leb limit (card key s'))) [
        | inl full ↦ absurd (false_ne (rw full at h))
        | inr free ↦ rw free (card_added key now_ms (timeout_ms + 10000) limit member s' free)
      ]

  refilled-le :
      (now_ms limit rate : ℕ) (o : Option Bucket)
      → refilled e f redis now_ms limit rate o ≤ℤ pos limit
  unfolding refilled
  refilled-le now_ms limit rate none =
      min_ℤ-le_left (pos limit +ℤ refill (pos now_ms -ℤ pos now_ms) rate) limit
  refilled-le now_ms limit rate (some b) =
      min_ℤ-le_left
        (Option.get_or b.tokens (pos limit)
          +ℤ refill (pos now_ms -ℤ pos (Option.get_or b.ts now_ms)) rate)
        limit

  same_self : (k : RateKey) → e.same k k ≡ true
  same_self k = (e.same_iff k k).1 refl

  pub bucket_written :
      (k : RateKey) (b : Bucket) (ttl : ℕ) (s : Store)
      → bucket k (pexpire k ttl (hset k b s)) ≡ some b
  bucket_written k b ttl s = bucket-pexpire k k ttl _ ∙ bucket-hset k k b s ∙ rw (same_self k) refl

  -- Tokens that were taken now and come back now are the tokens that were there.
  taken_back : (t : ℤ) (n limit : ℕ) → t ≤ℤ pos limit → min_ℤ (t -ℤ pos n +ℤ pos n) (pos limit) ≡ t
  taken_back t n limit h = ap (λ a. min_ℤ a (pos limit)) (back t n) ∙ min_ℤ-small t limit h
    where
      back : (t : ℤ) (n : ℕ) → t -ℤ pos n +ℤ pos n ≡ t
      back t n = omega int_laws

  refilled-now :
      (now_ms limit rate : ℕ) (t : ℤ)
      → t ≤ℤ pos limit
      → refilled e f redis now_ms limit rate (some (record { tokens = some t; ts = some now_ms }))
        ≡ t
  unfolding refilled
  refilled-now now_ms limit rate t h =
      ap (λ d. min_ℤ (pos limit) (t +ℤ d)) (refill-now now_ms rate)
      ∙ ap (λ a. min_ℤ (pos limit) a) (plus_zero t)
      ∙ min_ℤ-small_left t limit h
    where
      plus_zero : (t : ℤ) → t +ℤ pos 0 ≡ t
      plus_zero t = omega int_laws

  -- A reservation of tokens that is given back at once leaves the bucket as full as it was.
  pub tpm_settle-tpm_check :
      (key : RateKey) (now_ms limit request_tokens rate ttl_ms ttl_ms' : ℕ) (s : Store)
      → (tpm_check e f redis key now_ms limit request_tokens rate ttl_ms s).0.0 ≡ true
      → refilled e f redis now_ms limit rate (
          bucket key
            (tpm_settle e f redis key
              (pos request_tokens)
              limit
              ttl_ms'
              rate
              (tpm_check e f redis key now_ms limit request_tokens rate ttl_ms s).1).1)
        ≡ refilled e f redis now_ms limit rate (bucket key s)
  unfolding tpm_check tpm_settle settle_bucket
  tpm_settle-tpm_check key now_ms limit request_tokens rate ttl_ms ttl_ms' s h =
      let t = refilled e f redis now_ms limit rate (bucket key s) in
      let le = refilled-le now_ms limit rate (bucket key s) in
      let taken : Bucket = record { tokens = some (t -ℤ pos request_tokens); ts = some now_ms } in
      let s' = pexpire key ttl_ms (hset key taken s) in
      elim (Bool-cases (ltb_ℤ t (pos request_tokens))) [
        | inl short ↦ absurd (false_ne (rw short at h))
        | inr enough ↦ rw enough (
            rw (bucket_written key taken ttl_ms s) (
              rw
                (
                  bucket_written key
                      (record {
                        tokens =
                            some
                              (min_ℤ (t -ℤ pos request_tokens +ℤ pos request_tokens) (pos limit));
                        ts = some now_ms;
                      })
                      _ s',
                  taken_back t request_tokens limit le,
                )
                (refilled-now now_ms limit rate t le)))
      ]
