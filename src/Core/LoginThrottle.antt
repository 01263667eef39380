-- ===== src/Core/LoginThrottle.antt =====
-- src/core/login_throttle.py: the failed logins of a user name and of an address.
pub mod Locks
mod Tests
use Prim.Native.String.{String}
use janus_server.Prelude.{ℕ, ◌==◌, leb, Bool, true, false, Option, none, some, Eq, if◌then◌else◌}
use janus_server.Core.Redis.{Client, pure, command, ◌>>=◌, ◌>>◌}
use janus_server.Core.Redis.Values.{Values, or_zero}

pub data LoginKey : Type 0 where
  fail_key lock_key ip_key : String → LoginKey

pub record ThrottlePolicy : Type 0 where
  pub max_failures : ℕ
  pub lockout_seconds : ℕ
  pub failure_window_seconds : ℕ
  pub ip_max_failures : ℕ
  pub ip_window_seconds : ℕ

module _ (e : Eq LoginKey) (redis : Values LoginKey e) (policy : ThrottlePolicy) where
  open redis use {Store, value, incr, set, expire, delete}

  abbrev pub write : (Store → Store) → Client Store ⊥ (Unit {0})
  write f = command (λ s. (tt, f s))

  abbrev pub reply_incr : LoginKey → Client Store ⊥ ℕ
  reply_incr key = command (λ s. let s' = incr key s in (or_zero (value key s'), s'))

  abbrev pub when : Bool → Client Store ⊥ (Unit {0}) → Client Store ⊥ (Unit {0})
  when test m = if test then m else pure tt

  unfoldable pub is_locked : String → Client Store ⊥ Bool
  is_locked username =
      command (λ s. (elim (value (lock_key username) s) [ none ↦ false | some n ↦ true ], s))

  -- A value of the key that is no number counts as none.
  unfoldable pub is_ip_limited : String → Client Store ⊥ Bool
  is_ip_limited ip = command (λ s.
      (elim (value (ip_key ip) s) [ none ↦ false | some n ↦ leb policy.ip_max_failures n ], s))

  unfoldable pub record_ip : Option String → Client Store ⊥ (Unit {0})
  record_ip none = pure tt
  record_ip (some ip) = do
    ip_count ← reply_incr (ip_key ip)
    when (ip_count == 1) (write (expire (ip_key ip) policy.ip_window_seconds))

  unfoldable pub record_failure : String → Option String → Client Store ⊥ (Unit {0})
  unfolding record_ip
  record_failure username ip = do
    count ← reply_incr (fail_key username)
    when (count == 1) (write (expire (fail_key username) policy.failure_window_seconds))
    when (leb policy.max_failures count) (write (set (lock_key username) 1 policy.lockout_seconds))
    record_ip ip

  unfoldable pub reset : String → Client Store ⊥ (Unit {0})
  reset username = write (λ s. delete (lock_key username) (delete (fail_key username) s))
