-- ===== src/Gateway/RateLimit/Scripts.antt =====
-- src/gateway/rate_limit.py: the four Lua scripts, each of which the server runs as one step. Their
-- numbers are whole; a double holds them exactly up to 2 ^ 53.
use mathlib.Core.Option
use janus_server.Prelude.{
  ℕ, suc, ◌+◌, ◌*◌, ◌/◌, ◌-◌, max, Bool, true, false, ◌&&◌, ltb, leb, Option, none, some, Eq,
  if◌then◌else◌,
}
use janus_server.Prelude.Int.{ℤ, pos, negsuc, neg_part, ◌+ℤ◌, ◌-ℤ◌, ltb_ℤ, sub_ℕ}
use janus_server.Core.Redis.Windows.{Bucket, Windows}
use janus_server.Gateway.RateLimit.Keys.{RateKey}

-- `math.floor(elapsed_ms * refill_rate / 60000)`: a clock that was set back makes it negative.
unfoldable pub refill : ℤ → ℕ → ℤ
refill (pos elapsed_ms) refill_rate = pos (elapsed_ms * refill_rate / 60000)
refill (negsuc n) refill_rate = sub_ℕ 0 ((suc n * refill_rate + 59999) / 60000)

unfoldable pub min_ℤ : ℤ → ℤ → ℤ
min_ℤ a b = if ltb_ℤ b a then b else a

-- `math.ceil((-tokens) * 60000 / refill_rate)` for a bucket in debt, and the base on top.
unfoldable pub effective_ttl : ℤ → ℕ → ℕ → ℕ
effective_ttl tokens ttl_ms refill_rate =
    if ltb 0 (neg_part tokens) && ltb 0 refill_rate
    then max ttl_ms ((neg_part tokens * 60000 + (refill_rate - 1)) / refill_rate + ttl_ms)
    else ttl_ms

module _ {M : Type 0} (e : Eq RateKey) (f : Eq M) (redis : Windows RateKey M e f) where
  open redis use {Store, card, oldest, bucket, zadd, zremrangebyscore, hset, pexpire}

  -- _LUA_RPM_CHECK: whether it was let in, the count, and the oldest score. The limit, which the
  -- script hands back, is the caller's.
  unfoldable pub rpm_check : RateKey → ℕ → ℕ → ℕ → M → Store → (Bool × ℕ × Option ℕ) × Store
  rpm_check key now_ms window_ms limit member s =
      let s = zremrangebyscore key (pos now_ms -ℤ pos window_ms) s in
      let count = card key s in
      if leb limit count
      then ((false, count, oldest key s), s)
      else ((true, count + 1, none), pexpire key (window_ms + 1000) (zadd key now_ms member s))

  -- The tokens in a bucket at a time, refilled: a bucket that is not there is full.
  unfoldable pub refilled : ℕ → ℕ → ℕ → Option Bucket → ℤ
  unfolding refill min_ℤ
  refilled now_ms limit refill_rate none =
      min_ℤ (pos limit) (pos limit +ℤ refill (pos now_ms -ℤ pos now_ms) refill_rate)
  refilled now_ms limit refill_rate (some b) =
      let tokens = Option.get_or b.tokens (pos limit) in
      let last_ts = Option.get_or b.ts now_ms in
      min_ℤ (pos limit) (tokens +ℤ refill (pos now_ms -ℤ pos last_ts) refill_rate)

  -- _LUA_TPM_CHECK.
  unfoldable pub tpm_check : RateKey → ℕ → ℕ → ℕ → ℕ → ℕ → Store → (Bool × ℤ) × Store
  unfolding refilled
  tpm_check key now_ms limit request_tokens refill_rate ttl_ms s =
      let tokens = refilled now_ms limit refill_rate (bucket key s) in
      if ltb_ℤ tokens (pos request_tokens) then ((false, tokens), s) else (
        (true, tokens -ℤ pos request_tokens),
        pexpire key ttl_ms (
            hset key (record { tokens = some (tokens -ℤ pos request_tokens); ts = some now_ms }) s),
      )

  -- _LUA_TPM_SETTLE, for the bucket that EXISTS and HGET find.
  unfoldable pub settle_bucket : RateKey → ℤ → ℕ → ℕ → ℕ → Option Bucket → Store → Bool × Store
  unfolding effective_ttl min_ℤ
  settle_bucket key delta limit ttl_ms refill_rate none s = (false, s)
  settle_bucket key delta limit ttl_ms refill_rate (some b) s =
      let tokens = min_ℤ (Option.get_or b.tokens (pos 0) +ℤ delta) (pos limit) in
      (
        true,
        pexpire key (effective_ttl tokens ttl_ms refill_rate)
            (hset key (record b { tokens = some tokens }) s),
      )

  unfoldable pub tpm_settle : RateKey → ℤ → ℕ → ℕ → ℕ → Store → Bool × Store
  unfolding settle_bucket
  tpm_settle key delta limit ttl_ms refill_rate s =
      settle_bucket key delta limit ttl_ms refill_rate (bucket key s) s

  -- _LUA_CONCURRENT_CHECK.
  unfoldable pub concurrent_check : RateKey → ℕ → ℕ → M → ℕ → Store → (Bool × ℕ) × Store
  concurrent_check key now_ms limit member timeout_ms s =
      let s = zremrangebyscore key (pos now_ms -ℤ pos timeout_ms) s in
      let count = card key s in
      if leb limit count
      then ((false, count), s)
      else ((true, count + 1), pexpire key (timeout_ms + 10000) (zadd key now_ms member s))
