-- ===== src/Core/WorkerId/Fence.antt =====
-- A process that cannot renew gives its lease up, and when.
use janus_server.Prelude.{
  ℕ, ◌+◌, ◌-◌, ◌≤◌, ◌<◌, leb, ◌≡◌, refl, sym, ap, ◌⊎◌, inl, inr, arith, Bool, true, false, some,
  List, [], ◌∷◌, Eq, if◌then◌else◌,
}
use janus_server.Core.WorkerId.Leases.{Leases, WorkerIdLease}
use janus_server.Core.WorkerId.Heartbeat.{
  Renewal, failed, goes_on, lease_lost, Run, lost_at, or_now, after_round, heartbeat_round,
  run_heartbeat,
}

-- Rounds whose renewals all raise, with their clocks.
abbrev pub failing : List ℕ → List (Renewal × ℕ)
failing [] = []
failing (now ∷ clocks) = (failed, now) ∷ failing clocks

-- Each clock is at most `gap` after the one before it.
abbrev pub Gaps : ℕ → ℕ → List ℕ → Type 0
Gaps gap before [] = Unit
Gaps gap before (now ∷ clocks) = (now ≤ before + gap) × Gaps gap now clocks

-- One of the clocks has come to a time.
abbrev pub Reaches : ℕ → List ℕ → Type 0
Reaches time [] = ⊥
Reaches time (now ∷ clocks) = (time ≤ now) ⊎ Reaches time clocks

module _ {Token : Type 0} (f : Eq Token) (redis : Leases Token) where
  abbrev pub Fenced : ℕ → ℕ → Run f redis → Type 0
  Fenced time gap run = (n : ℕ) × (run ≡ lost_at n) × (time ≤ n) × (n < time + gap)

  run_heartbeat_from :
      (gap last before : ℕ) (clocks : List ℕ) (lease : WorkerIdLease f redis)
      → lease.last_renew_monotonic ≡ some last
      → 0 < lease.ttl_seconds
      → before < last + lease.ttl_seconds
      → Gaps gap before clocks
      → Reaches (last + lease.ttl_seconds) clocks
      → Fenced (last + lease.ttl_seconds) gap (run_heartbeat f redis (failing clocks) lease)
  unfolding run_heartbeat heartbeat_round
  run_heartbeat_from gap last before [] lease q some_time h gaps reaches = absurd reaches
  run_heartbeat_from gap last before (now ∷ clocks) lease q some_time h (gap_now, gaps) reaches =
      go (leb lease.ttl_seconds (now - or_now f redis now lease.last_renew_monotonic))
        (sym (ap (λ o. leb lease.ttl_seconds (now - or_now f redis now o)) q)) reaches
        (λ h' reached. run_heartbeat_from gap last now clocks lease q some_time h' gaps reached)
    where
      go :
          (b : Bool)
          → leb lease.ttl_seconds (now - last) ≡ b
          → Reaches (last + lease.ttl_seconds) (now ∷ clocks)
          → (now < last + lease.ttl_seconds
              → Reaches (last + lease.ttl_seconds) clocks
              → Fenced
                  (last + lease.ttl_seconds)
                  gap
                  (run_heartbeat f redis (failing clocks) lease))
          → Fenced (last + lease.ttl_seconds) gap (
              after_round f redis now
                (if b then lease_lost else goes_on lease)
                (λ l. run_heartbeat f redis (failing clocks) l))
      go true r reached rest = (now, refl, ground arith, omega arith)
      go false r (inl reached) rest = absurd (ground arith)
      go false r (inr reached) rest = rest (ground arith) reached

  -- A heartbeat whose renewals all raise calls _on_lease_lost, as soon as one of its clocks shows that
  -- the TTL has passed since the last renewal. That is never before then, and less than one interval
  -- between two rounds after it.
  pub run_heartbeat-Fenced :
      (gap last : ℕ) (clocks : List ℕ) (lease : WorkerIdLease f redis)
      → lease.last_renew_monotonic ≡ some last
      → 0 < lease.ttl_seconds
      → Gaps gap last clocks
      → Reaches (last + lease.ttl_seconds) clocks
      → (n : ℕ) × (run_heartbeat f redis (failing clocks) lease ≡ lost_at n)
        × (last + lease.ttl_seconds ≤ n)
        × (n < last + lease.ttl_seconds + gap)
  run_heartbeat-Fenced gap last clocks lease q h gaps reaches =
      run_heartbeat_from gap last last clocks lease q h (omega arith) gaps reaches
