-- ===== src/Core/WorkerId/Tests.antt =====
-- Two processes that lease worker number 0 one after the other, and a heartbeat in a partition.
use janus_server.Prelude.{
  ℕ, ◌+◌, ◌≤◌, ◌<◌, ◌≡◌, ◌≢◌, refl, ◌⊎◌, inl, inr, arith, false, none, some, List, [], ◌∷◌, nat_eq,
}
use janus_server.Core.Redis.{ok, err, raised}
use janus_server.Core.WorkerId.Leases.{
  Leases, plain_leases, WorkerIdLease, leased, acquire_worker_id, claim, worker_id_unavailable,
}
use janus_server.Core.WorkerId.Heartbeat.{run_heartbeat, lost_at}
use janus_server.Core.WorkerId.Cluster.{
  World, set_process, claimed, passes, claims, Reachable, here, later,
}
use janus_server.Core.WorkerId.Unique.{Reachable-exclusive}
use janus_server.Core.WorkerId.Fence.{failing, run_heartbeat-Fenced}

abbrev server : Leases ℕ
server = plain_leases ℕ

abbrev start : World nat_eq server
start = record { store = λ k. none; now = 0; processes = λ t. none }

abbrev claim_in : ℕ → ℕ → ℕ → World nat_eq server → World nat_eq server
claim_in token worker_id ttl w = record w {
  store = (claim nat_eq server worker_id token ttl w.store).1;
  processes =
      set_process nat_eq server token (some (claimed nat_eq server token worker_id ttl w.now)) w;
}

abbrev wait : ℕ → World nat_eq server → World nat_eq server
wait d w = record w { store = server.pass d w.store; now = w.now + d }

-- Process 1 leases the number and is cut off; after 40 seconds process 2 leases it.
abbrev taken_over : World nat_eq server
taken_over = claim_in 2 0 30 (wait 40 (claim_in 1 0 30 start))

taken_over-Reachable : Reachable nat_eq server start taken_over
unfolding claim
taken_over-Reachable =
    later (later (later here (claims 1 0 30 refl refl)) (passes 40)) (claims 2 0 30 refl refl)

one_ne_two : ◌≢◌ {A = ℕ} 1 2
one_ne_two h = absurd (omega arith)

Reachable-exclusive_example : (0 + 30 ≤ 40) ⊎ (40 + 30 ≤ 40)
Reachable-exclusive_example =
    Reachable-exclusive nat_eq server start taken_over 1 2 (claimed nat_eq server 1 0 30 0)
      (claimed nat_eq server 2 0 30 40) (λ t. refl) taken_over-Reachable one_ne_two refl refl refl

-- The third failure comes when the TTL has passed.
abbrev lease : WorkerIdLease nat_eq server
lease = record { worker_id = 0; token = 1; ttl_seconds = 30; last_renew_monotonic = some 0 }

abbrev clocks : List ℕ
clocks = 10 ∷ 21 ∷ 32 ∷ 43 ∷ []

run_heartbeat-Fenced_example :
    (n : ℕ) × (run_heartbeat nat_eq server (failing clocks) lease ≡ lost_at n)
    × (0 + 30 ≤ n)
    × (n < 0 + 30 + 11)
run_heartbeat-Fenced_example =
    run_heartbeat-Fenced nat_eq server 11 0 clocks lease refl (omega arith) (omega arith)
      (inr (inr (inl (omega arith))))

-- The first free number is taken, whether Redis answers or not in a local environment.
first_free :
    (acquire_worker_id nat_eq server false 3 30
      (record { store = (claim_in 1 0 30 start).store; up = [] })).0
    ≡ ok (leased nat_eq server 1 3 30)
unfolding acquire_worker_id
first_free = refl

redis_down :
    (acquire_worker_id nat_eq server false 3 30 (record { store = start.store; up = false ∷ [] })).0
    ≡ err (raised worker_id_unavailable)
unfolding acquire_worker_id
redis_down = refl
