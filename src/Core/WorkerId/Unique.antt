-- ===== src/Core/WorkerId/Unique.antt =====
-- Two processes do not hold one worker number, unless one of them has failed to renew for its TTL.
use janus_server.Prelude.{
  ℕ, ◌+◌, ◌≤◌, ltb, ◌≡◌, ◌≢◌, refl, sym, ap, ◌∙◌, ◌⊎◌, inl, inr, arith, Bool, true, false, Option,
  none, some, Eq, if◌then◌else◌,
}
use janus_server.Core.WorkerId.Leases.{Leases, owned_by, renew_script, release_script, claim}
use janus_server.Core.WorkerId.Heartbeat.{failed, answered, heartbeat_round, start_heartbeat}
use janus_server.Core.WorkerId.Cluster.{
  Process, World, set_process, renewed, after_beat, Step, passes, claims, starts, renews, fails,
  beats, releases, crashes, Reachable, here, later,
}
use janus_server.Core.WorkerId.Exclusion.{
  Owns, Sound, aged-Owns, set_process-Sound, the_process, claims-Sound, renews-Sound,
  releases-Sound, beat-Owns,
}

module _ {Token : Type 0} (f : Eq Token) (redis : Leases Token) where
  open redis use {Store, lease_of, put, pass}

  Step-Sound : {w v : World f redis} → Step f redis w v → Sound f redis w → Sound f redis v
  unfolding claim renew_script release_script start_heartbeat
  Step-Sound {w} (passes d) sound = λ t p q. aged-Owns f redis d w.now w.store t p (sound t p q)
  Step-Sound {w} (claims token worker_id ttl idle done) sound =
      claims-Sound f redis token worker_id ttl w sound (lease_of worker_id w.store) refl done
  Step-Sound {w} (starts token p q) sound =
      set_process-Sound f redis token
        (some (record p { lease = start_heartbeat f redis w.now p.lease })) w w.store
        (λ p' eq. the_process f redis (Owns f redis w.store w.now token) _ p' eq (sound token p q))
        (λ t p' ne r. sound t p' r)
  Step-Sound {w} (renews token p answer_lost q) sound =
      ran (owned_by f redis token (lease_of p.lease.worker_id w.store)) refl
    where
      run : Bool → Bool × Store
      run b =
          if b
          then (true, put p.lease.worker_id (some (token, p.lease.ttl_seconds)) w.store)
          else (false, w.store)

      ran :
          (b : Bool)
          → owned_by f redis token (lease_of p.lease.worker_id w.store) ≡ b
          → Sound f redis (record w {
            store = (run b).1;
            processes =
                set_process f redis token
                  (some (
                    renewed f redis
                      (run b).0
                      w.now
                      (if answer_lost then failed else answered (run b).0)
                      p))
                  w;
          })
      ran true own = renews-Sound f redis token p _ w sound q true own
      ran false own = renews-Sound f redis token p _ w sound q false own
  Step-Sound {w} (fails token p q) sound =
      set_process-Sound f redis token (some (record p { reply = some failed })) w w.store
        (λ p' eq. the_process f redis (Owns f redis w.store w.now token) _ p' eq (sound token p q))
        (λ t p' ne r. sound t p' r)
  Step-Sound {w} (beats token p r q reply) sound =
      set_process-Sound f redis token
        (after_beat f redis (heartbeat_round f redis r w.now p.lease) p) w w.store
        (λ p' eq. beat-Owns f redis w.store token w.now r p p' (sound token p q) eq)
        (λ t p' ne r'. sound t p' r')
  Step-Sound {w} (releases token p q) sound =
      ran (owned_by f redis token (lease_of p.lease.worker_id w.store)) refl
    where
      run : Bool → Bool × Store
      run b = if b then (true, put p.lease.worker_id none w.store) else (false, w.store)

      ran :
          (b : Bool)
          → owned_by f redis token (lease_of p.lease.worker_id w.store) ≡ b
          → Sound f redis
              (record w { store = (run b).1; processes = set_process f redis token none w })
      ran true own = releases-Sound f redis token p w sound true own
      ran false own = releases-Sound f redis token p w sound false own
  Step-Sound {w} (crashes token) sound =
      set_process-Sound f redis token none w w.store (λ p' eq. absurd cc)
        (λ t p' ne r. sound t p' r)

  Reachable-Sound :
      {w v : World f redis} → Reachable f redis w v → Sound f redis w → Sound f redis v
  Reachable-Sound here sound = sound
  Reachable-Sound (later path step) sound = Step-Sound step (Reachable-Sound path sound)

  -- From a world without processes, after any steps of processes and of time, with renewals whose
  -- answers are late or lost: if two processes hold the same worker number, then for one of them a
  -- whole TTL has passed since Redis last ran its claim or a renewal of it that succeeded.
  pub Reachable-exclusive :
      (w v : World f redis) (t t' : Token) (p p' : Process f redis)
      → ((t : Token) → w.processes t ≡ none)
      → Reachable f redis w v
      → t ≢ t'
      → v.processes t ≡ some p
      → v.processes t' ≡ some p'
      → p.lease.worker_id ≡ p'.lease.worker_id
      → (p.served + p.lease.ttl_seconds ≤ v.now) ⊎ (p'.served + p'.lease.ttl_seconds ≤ v.now)
  Reachable-exclusive w v t t' p p' idle path ne q q' same =
      go (ltb v.now (p.served + p.lease.ttl_seconds)) (ltb v.now (p'.served + p'.lease.ttl_seconds))
        refl refl
    where
      sound : Sound f redis v
      sound = Reachable-Sound path (λ t p q. absurd (cc (idle t, q)))

      the_token :
          (left left' : ℕ)
          → ◌≡◌ {A = Option (Token × ℕ)} (some (t, left)) (some (t', left'))
          → t ≡ t'
      the_token left left' eq = cc

      go :
          (b b' : Bool)
          → ltb v.now (p.served + p.lease.ttl_seconds) ≡ b
          → ltb v.now (p'.served + p'.lease.ttl_seconds) ≡ b'
          → (p.served + p.lease.ttl_seconds ≤ v.now) ⊎ (p'.served + p'.lease.ttl_seconds ≤ v.now)
      go false b' r r' = inl (ground arith)
      go true false r r' = inr (ground arith)
      go true true r r' = absurd (
          ne (
            the_token _ _ (
              sym ((sound t p q).1 (ground arith))
              ∙ ap (λ k. lease_of k v.store) same
              ∙ (sound t' p' q').1 (ground arith))))
