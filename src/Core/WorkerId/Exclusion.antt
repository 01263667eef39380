-- ===== src/Core/WorkerId/Exclusion.antt =====
-- Until its TTL has passed since Redis served it, the key of a process is its own: each step keeps it.
use janus_server.Prelude.{
  ℕ, ◌+◌, ◌-◌, ◌≤◌, ◌<◌, ◌==◌, leb, ◌≡◌, ◌≢◌, refl, sym, ap, ◌∙◌, arith, Bool, true, false, Option,
  none, some, Eq, ==_iff, if◌then◌else◌,
}
use mathlib.Core.Path.{subst}
use janus_server.Core.WorkerId.Leases.{Leases, aged, owned_by, set_if_free}
use janus_server.Core.WorkerId.Heartbeat.{
  Renewal, failed, answered, goes_on, lease_lost, or_now, heartbeat_round,
}
use janus_server.Core.WorkerId.Cluster.{Process, World, set_process, claimed, renewed, after_beat}

module _ {Token : Type 0} (f : Eq Token) (redis : Leases Token) where
  open redis use {Store, lease_of, put, pass, lease_of-put, lease_of-pass}

  -- Until its TTL has passed since Redis served it, the key of the process is its own.
  abbrev pub Owns : Store → ℕ → Token → Process f redis → Type 0
  Owns s now t p =
      (p.served ≤ now)
      × (now < p.served + p.lease.ttl_seconds
          → lease_of p.lease.worker_id s ≡ some (t, p.served + p.lease.ttl_seconds - now))

  abbrev pub Sound : World f redis → Type 0
  Sound w = (t : Token) (p : Process f redis) → w.processes t ≡ some p → Owns w.store w.now t p

  put_self : (k : ℕ) (o : Option (Token × ℕ)) (s : Store) → lease_of k (put k o s) ≡ o
  put_self k o s =
      lease_of-put k k o s ∙ ap (λ b. if b then o else lease_of k s) ((==_iff k k).1 refl)

  -- A write of a key that was free, or another token's, leaves the leases of the others.
  put_other :
      (k : ℕ) (o x : Option (Token × ℕ)) (now : ℕ) (s : Store) (t : Token) (p : Process f redis)
      → lease_of k s ≡ x
      → ((left : ℕ) → x ≢ some (t, left))
      → Owns s now t p
      → Owns (put k o s) now t p
  put_other k o x now s t p q free (since, owns) =
      (since, λ fresh. go (p.lease.worker_id == k) refl (owns fresh))
    where
      go :
          (b : Bool)
          → (p.lease.worker_id == k) ≡ b
          → lease_of p.lease.worker_id s ≡ some (t, p.served + p.lease.ttl_seconds - now)
          → lease_of p.lease.worker_id (put k o s) ≡ some (t, p.served + p.lease.ttl_seconds - now)
      go true r own =
          absurd (free _ (sym q ∙ ap (λ i. lease_of i s) (sym ((==_iff _ _).0 r)) ∙ own))
      go false r own =
          lease_of-put p.lease.worker_id k o s
          ∙ ap (λ b. if b then o else lease_of p.lease.worker_id s) r
          ∙ own

  pub aged-Owns :
      (d now : ℕ) (s : Store) (t : Token) (p : Process f redis)
      → Owns s now t p
      → Owns (pass d s) (now + d) t p
  aged-Owns d now s t p (since, owns) = (
    omega arith,
    λ fresh.
        let left = p.served + p.lease.ttl_seconds - now in
        lease_of-pass p.lease.worker_id d s
        ∙ ap (aged d) (owns (omega arith))
        ∙ go (leb left d) refl fresh,
  )
    where
      go :
          (b : Bool)
          → leb (p.served + p.lease.ttl_seconds - now) d ≡ b
          → now + d < p.served + p.lease.ttl_seconds
          → ◌≡◌ {A = Option (Token × ℕ)}
              (if b then none else some (t, p.served + p.lease.ttl_seconds - now - d))
              (some (t, p.served + p.lease.ttl_seconds - (now + d)))
      go true r fresh = absurd (ground arith)
      go false r fresh =
          let same : p.served + p.lease.ttl_seconds - now - d
              ≡ p.served + p.lease.ttl_seconds - (now + d) =
            omega arith in
          rw same refl

  -- The processes change at one token.
  pub set_process-Sound :
      (token : Token) (o : Option (Process f redis)) (w : World f redis) (s : Store)
      → ((p : Process f redis) → o ≡ some p → Owns s w.now token p)
      → ((t : Token) (p : Process f redis) → t ≢ token → w.processes t ≡ some p → Owns s w.now t p)
      → (t : Token) (p : Process f redis) → set_process f redis token o w t ≡ some p
      → Owns s w.now t p
  set_process-Sound token o w s own others t p = go (f.same t token) refl
    where
      go :
          (b : Bool)
          → f.same t token ≡ b
          → (if b then o else w.processes t) ≡ some p
          → Owns s w.now t p
      go true r q = subst (λ x. Owns s w.now x p) (sym ((f.same_iff t token).0 r)) (own p q)
      go false r q = others t p (λ eq. absurd (differ r ((f.same_iff t token).1 eq))) q
        where
          differ : {b : Bool} → b ≡ false → b ≡ true → ⊥
          differ r r' = cc

  pub the_process :
      (P : Process f redis → Type 0) (p q : Process f redis)
      → ◌≡◌ {A = Option (Process f redis)} (some p) (some q)
      → P p
      → P q
  the_process P p q h held = subst P (inner p q h) held
    where
      inner : (p q : Process f redis) → ◌≡◌ {A = Option (Process f redis)} (some p) (some q) → p ≡ q
      inner p q h = cc

  pub claims-Sound :
      (token : Token) (worker_id ttl : ℕ) (w : World f redis)
      → Sound w
      → (x : Option (Token × ℕ)) → lease_of worker_id w.store ≡ x
      → (set_if_free f redis worker_id token ttl x w.store).0 ≡ true
      → (t : Token) (p : Process f redis)
      → set_process f redis token (some (claimed f redis token worker_id ttl w.now)) w t ≡ some p
      → Owns (set_if_free f redis worker_id token ttl x w.store).1 w.now t p
  claims-Sound token worker_id ttl w sound none q done =
      set_process-Sound token (some (claimed f redis token worker_id ttl w.now)) w
        (put worker_id (some (token, ttl)) w.store)
        (λ p eq. the_process (Owns (put worker_id (some (token, ttl)) w.store) w.now token) _ p eq (
          omega arith,
          λ fresh.
              put_self worker_id (some (token, ttl)) w.store
              ∙ ap (λ n. some (token, n)) (whole ttl w.now),
        ))
        (λ t p ne r.
          put_other worker_id (some (token, ttl)) none w.now w.store t p q (λ left eq. absurd cc)
            (sound t p r))
    where
      whole : (ttl now : ℕ) → ttl ≡ now + ttl - now
      whole ttl now = omega arith
  claims-Sound token worker_id ttl w sound (some (t', left)) q done = absurd cc

  -- A key that a token owns is no other token's.
  owned_alone :
      (token t : Token) (left : ℕ) (x : Option (Token × ℕ))
      → owned_by f redis token x ≡ true
      → t ≢ token
      → x ≢ some (t, left)
  owned_alone token t left none own ne = λ eq. cc
  owned_alone token t left (some (t', left')) own ne =
      λ eq. ne (sym (theirs t' t left' left eq) ∙ (f.same_iff t' token).0 own)
    where
      theirs :
          (t' t : Token) (left' left : ℕ)
          → ◌≡◌ {A = Option (Token × ℕ)} (some (t', left')) (some (t, left))
          → t' ≡ t
      theirs t' t left' left eq = cc

  pub renews-Sound :
      (token : Token) (p : Process f redis) (r : Renewal) (w : World f redis)
      → Sound w
      → w.processes token ≡ some p
      → (b : Bool) → owned_by f redis token (lease_of p.lease.worker_id w.store) ≡ b
      → (t : Token) (p' : Process f redis)
      → set_process f redis token (some (renewed f redis b w.now r p)) w t ≡ some p'
      → Owns
          (if b then put p.lease.worker_id (some (token, p.lease.ttl_seconds)) w.store else w.store)
          w.now
          t
          p'
  renews-Sound token p r w sound q true own =
      set_process-Sound token (some (renewed f redis true w.now r p)) w
        (put p.lease.worker_id (some (token, p.lease.ttl_seconds)) w.store)
        (λ p' eq.
          the_process
            (Owns (put p.lease.worker_id (some (token, p.lease.ttl_seconds)) w.store) w.now token) _
            p' eq
            (
              omega arith,
              λ fresh.
                  put_self p.lease.worker_id (some (token, p.lease.ttl_seconds)) w.store
                  ∙ ap (λ n. some (token, n)) (whole p.lease.ttl_seconds w.now),
            ))
        (λ t p' ne r'.
          put_other p.lease.worker_id (some (token, p.lease.ttl_seconds))
            (lease_of p.lease.worker_id w.store) w.now w.store t p' refl
            (λ left. owned_alone token t left (lease_of p.lease.worker_id w.store) own ne)
            (sound t p' r'))
    where
      whole : (ttl now : ℕ) → ttl ≡ now + ttl - now
      whole ttl now = omega arith
  renews-Sound token p r w sound q false own =
      set_process-Sound token (some (renewed f redis false w.now r p)) w w.store
        (λ p' eq. the_process (Owns w.store w.now token) _ p' eq (sound token p q))
        (λ t p' ne r'. sound t p' r')

  pub releases-Sound :
      (token : Token) (p : Process f redis) (w : World f redis)
      → Sound w
      → (b : Bool) → owned_by f redis token (lease_of p.lease.worker_id w.store) ≡ b
      → (t : Token) (p' : Process f redis) → set_process f redis token none w t ≡ some p'
      → Owns (if b then put p.lease.worker_id none w.store else w.store) w.now t p'
  releases-Sound token p w sound true own =
      set_process-Sound token none w (put p.lease.worker_id none w.store) (λ p' eq. absurd cc)
        (λ t p' ne r'.
          put_other p.lease.worker_id none (lease_of p.lease.worker_id w.store) w.now w.store t p'
            refl (λ left. owned_alone token t left (lease_of p.lease.worker_id w.store) own ne)
            (sound t p' r'))
  releases-Sound token p w sound false own =
      set_process-Sound token none w w.store (λ p' eq. absurd cc) (λ t p' ne r'. sound t p' r')

  pub beat-Owns :
      (s : Store) (token : Token) (now : ℕ) (r : Renewal) (p p' : Process f redis)
      → Owns s now token p
      → after_beat f redis (heartbeat_round f redis r now p.lease) p ≡ some p'
      → Owns s now token p'
  unfolding heartbeat_round
  beat-Owns s token now failed p p' own =
      go (leb p.lease.ttl_seconds (now - or_now f redis now p.lease.last_renew_monotonic))
    where
      go :
          (b : Bool)
          → after_beat f redis (if b then lease_lost else goes_on p.lease) p ≡ some p'
          → Owns s now token p'
      go true eq = absurd cc
      go false eq = the_process (Owns s now token) _ p' eq own
  beat-Owns s token now (answered true) p p' own = λ eq. the_process (Owns s now token) _ p' eq own
  beat-Owns s token now (answered false) p p' own = λ eq. absurd cc
