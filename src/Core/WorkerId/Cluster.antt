-- ===== src/Core/WorkerId/Cluster.antt =====
-- Several processes that lease worker numbers from one Redis, and time. A renewal runs in Redis at one
-- moment and its answer is handled at a later one; it may also be lost on its way there or back.
use janus_server.Prelude.{ℕ, ◌+◌, ◌≡◌, Bool, true, false, Option, none, some, Eq, if◌then◌else◌}
use janus_server.Core.WorkerId.Leases.{Leases, WorkerIdLease, renew_script, release_script, claim}
use janus_server.Core.WorkerId.Heartbeat.{
  Renewal, failed, answered, Beat, goes_on, lease_lost, heartbeat_round, start_heartbeat,
}

module _ {Token : Type 0} (f : Eq Token) (redis : Leases Token) where
  open redis use {Store, lease_of, put, pass, lease_of-put, lease_of-pass}

  -- A process that has not given up its lease. `served` is the time at which Redis ran its claim or
  -- its last renewal that succeeded.
  pub record Process : Type 0 where
    pub lease : WorkerIdLease f redis
    pub served : ℕ
    pub reply : Option Renewal

  pub record World : Type 0 where
    pub store : Store
    pub now : ℕ
    pub processes : Token → Option Process

  abbrev pub set_process : Token → Option Process → World → Token → Option Process
  set_process token o w t = if f.same t token then o else w.processes t

  abbrev pub claimed : Token → ℕ → ℕ → ℕ → Process
  claimed token worker_id ttl now = record {
    lease = record {
      worker_id = worker_id;
      token = token;
      ttl_seconds = ttl;
      last_renew_monotonic = none;
    };
    served = now;
    reply = none;
  }

  -- The process after Redis has run its renewal; `r` is what is to come back.
  abbrev pub renewed : Bool → ℕ → Renewal → Process → Process
  renewed true now r p = record p { served = now; reply = some r }
  renewed false now r p = record p { reply = some r }

  abbrev pub after_beat : Beat f redis → Process → Option Process
  after_beat lease_lost p = none
  after_beat (goes_on lease) p = some (record p { lease = lease; reply = none })

  abbrev pub renewal : Process → Token → Store → Bool × Store
  renewal p token s = renew_script f redis p.lease.worker_id token p.lease.ttl_seconds s

  pub data Step (w : World) : World → Type 0 where
    passes : (d : ℕ) → Step w (record w { store = pass d w.store; now = w.now + d })
    claims :
        (token : Token) (worker_id ttl : ℕ)
        → w.processes token ≡ none
        → (claim f redis worker_id token ttl w.store).0 ≡ true
        → Step w (record w {
          store = (claim f redis worker_id token ttl w.store).1;
          processes = set_process token (some (claimed token worker_id ttl w.now)) w;
        })
    starts :
        (token : Token) (p : Process)
        → w.processes token ≡ some p
        → Step w (record w {
          processes =
              set_process token
                (some (record p { lease = start_heartbeat f redis w.now p.lease }))
                w;
        })
    -- The renewal runs, and its answer or a failure is to come back.
    renews :
        (token : Token) (p : Process) (answer_lost : Bool)
        → w.processes token ≡ some p
        → Step w (record w {
          store = (renewal p token w.store).1;
          processes =
              set_process token
                (some (
                  renewed
                    (renewal p token w.store).0
                    w.now
                    (if answer_lost then failed else answered (renewal p token w.store).0)
                    p))
                w;
        })
    fails :
        (token : Token) (p : Process)
        → w.processes token ≡ some p
        → Step w
            (record w { processes = set_process token (some (record p { reply = some failed })) w })
    beats :
        (token : Token) (p : Process) (r : Renewal)
        → w.processes token ≡ some p
        → p.reply ≡ some r
        → Step w (record w {
          processes = set_process token (after_beat (heartbeat_round f redis r w.now p.lease) p) w;
        })
    releases :
        (token : Token) (p : Process)
        → w.processes token ≡ some p
        → Step w (record w {
          store = (release_script f redis p.lease.worker_id token w.store).1;
          processes = set_process token none w;
        })
    crashes : (token : Token) → Step w (record w { processes = set_process token none w })

  pub data Reachable (w : World) : World → Type 0 where
    here : Reachable w w
    later : {v u : World} → Reachable w v → Step v u → Reachable w u
