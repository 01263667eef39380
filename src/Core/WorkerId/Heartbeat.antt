-- ===== src/Core/WorkerId/Heartbeat.antt =====
-- The heartbeat of a lease, one round of its loop at a time.
use janus_server.Prelude.{
  ℕ, ◌-◌, ◌/◌, leb, max, Bool, true, false, Option, none, some, List, [], ◌∷◌, Eq, if◌then◌else◌,
}
use janus_server.Core.WorkerId.Leases.{Leases, WorkerIdLease}

-- What a renewal brings back: an exception, or the script's answer.
pub data Renewal : Type 0 where
  failed : Renewal
  answered : Bool → Renewal

abbrev pub heartbeat_interval : ℕ → ℕ
heartbeat_interval ttl_seconds = max 1 (ttl_seconds / 3)

module _ {Token : Type 0} (f : Eq Token) (redis : Leases Token) where
  -- The heartbeat goes on with a lease, or it has called _on_lease_lost and ended.
  pub data Beat : Type 0 where
    goes_on : WorkerIdLease f redis → Beat
    lease_lost : Beat

  abbrev pub or_now : ℕ → Option ℕ → ℕ
  or_now now none = now
  or_now now (some last) = last

  unfoldable pub start_heartbeat : ℕ → WorkerIdLease f redis → WorkerIdLease f redis
  start_heartbeat now lease = record lease { last_renew_monotonic = some now }

  unfoldable pub heartbeat_round : Renewal → ℕ → WorkerIdLease f redis → Beat
  heartbeat_round failed now lease =
      if leb lease.ttl_seconds (now - or_now now lease.last_renew_monotonic)
      then lease_lost
      else goes_on lease
  heartbeat_round (answered false) now lease = lease_lost
  heartbeat_round (answered true) now lease =
      goes_on (record lease { last_renew_monotonic = some now })

  -- The heartbeat over rounds with their renewals and clocks: the clock when it called
  -- _on_lease_lost, or the lease with which it still goes on.
  pub data Run : Type 0 where
    alive : WorkerIdLease f redis → Run
    lost_at : ℕ → Run

  abbrev pub after_round : ℕ → Beat → (WorkerIdLease f redis → Run) → Run
  after_round now lease_lost rest = lost_at now
  after_round now (goes_on lease) rest = rest lease

  unfoldable pub run_heartbeat : List (Renewal × ℕ) → WorkerIdLease f redis → Run
  unfolding heartbeat_round
  run_heartbeat [] lease = alive lease
  run_heartbeat ((renewal, now) ∷ rounds) lease =
      after_round now (heartbeat_round renewal now lease) (λ l. run_heartbeat rounds l)
