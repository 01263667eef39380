-- ===== src/Gateway/RateLimit/Denials.antt =====
-- The loop over the rules, and the whole check, where no round trip fails.
use janus_server.Prelude.{
  ℕ, ◌≡◌, refl, Bool, false, Option, none, some, List, [], ◌∷◌, Eq, arith, All,
}
use janus_server.Core.Redis.{Conn, Client, Result, ok, err, pure, continue}
use janus_server.Core.Redis.Windows.{Windows as Sets}
use janus_server.Gateway.RateLimit.Defs.{RateLimitRule, Subject}
use janus_server.Gateway.RateLimit.Keys.{RateKey, conc_key_of}
use janus_server.Gateway.RateLimit.Emergency.{EmergencyWindows}
use janus_server.Gateway.RateLimit.Gates.{
  Acquired, nothing, Step, passed, denied, then_gate, conc_keys, rpm_gate, tpm_gate,
  concurrent_gate, gates, conclude, check_rate_limits,
}
use janus_server.Gateway.RateLimit.Releases.{is_key}
use janus_server.Gateway.RateLimit.Rollback.{Noted, Ends, rpm_gate-Ends}
use janus_server.Gateway.RateLimit.TokenGate.{tpm_gate-Ends}
use janus_server.Gateway.RateLimit.SlotGate.{Listed, concurrent_gate-Ends}

module _ {M : Type 0} (e : Eq RateKey) (f : Eq M) (redis : Sets RateKey M e f) (member : M)
    (rules : List RateLimitRule) (estimated_tokens : ℕ) (is_stream : Bool) (now_ms : ℕ)
    (j : RateKey) where
  open redis use {Store, score, zremrangebyscore, score-hset, score-pexpire}

  -- One gate, and those behind it.
  then_gate-Ends :
      (m : Client Store ⊥ Step) (next : Acquired → Client Store ⊥ Step) (c : Conn Store)
      → Ends e f redis member rules estimated_tokens is_stream now_ms j (m c)
      → ((a : Acquired) (c' : Conn Store)
          → c'.up ≡ []
          → Noted e f redis member rules estimated_tokens is_stream now_ms j a c'.store
          → Ends e f redis member rules estimated_tokens is_stream now_ms j (next a c'))
      → Ends e f redis member rules estimated_tokens is_stream now_ms j (then_gate m next c)
  then_gate-Ends m next c h rest = go (m c) h
    where
      go :
          (o : Result ⊥ Step × Conn Store)
          → Ends e f redis member rules estimated_tokens is_stream now_ms j o
          → Ends e f redis member rules estimated_tokens is_stream now_ms j (
              continue o.0
                (λ step. elim step as (λ step. Client Store ⊥ Step) [
                  | passed a ↦ next a
                  | denied r ↦ pure (denied r)
                ])
                o.1)
      go (ok (passed a), c') (up, own) = rest a c' up own
      go (ok (denied r), c') h = h
      go (err x, c') h = absurd h

  gates-Ends :
      (rest : List RateLimitRule) (a : Acquired) (c : Conn Store)
      → All (Listed e f redis member rules estimated_tokens is_stream now_ms j) rest
      → c.up ≡ []
      → Noted e f redis member rules estimated_tokens is_stream now_ms j a c.store
      → Ends e f redis member rules estimated_tokens is_stream now_ms j
          (gates e f redis member rules estimated_tokens is_stream now_ms rest a c)
  unfolding gates
  gates-Ends [] a c listed up own = (up, own)
  gates-Ends (rule ∷ rest) a c (listed, others) up own =
      let rpm = λ (a : Acquired).
        rpm_gate e f redis member rules estimated_tokens is_stream now_ms rule a in
      let tpm = λ (a : Acquired).
        tpm_gate e f redis member rules estimated_tokens is_stream now_ms rule a in
      let concurrent = λ (a : Acquired).
        concurrent_gate e f redis member rules estimated_tokens is_stream now_ms rule a in
      let behind =
        λ (a : Acquired). gates e f redis member rules estimated_tokens is_stream now_ms rest a in
      then_gate-Ends (rpm a) (λ a. then_gate (tpm a) (λ a. then_gate (concurrent a) behind)) c
        (rpm_gate-Ends e f redis member rules estimated_tokens is_stream now_ms j rule a c up own)
        (λ a c up own.
          then_gate-Ends (tpm a) (λ a. then_gate (concurrent a) behind) c
            (tpm_gate-Ends e f redis member rules estimated_tokens is_stream now_ms j rule a c up
              own)
            (λ a c up own.
              then_gate-Ends (concurrent a) behind c
                (concurrent_gate-Ends e f redis member rules estimated_tokens is_stream now_ms j
                  rule a c listed up own)
                (λ a c up own. gates-Ends rest a c others up own)))

  conc_keys-Listed :
      (rs : List RateLimitRule)
      → (is_key e f redis j (conc_keys e f redis rules) ≡ false
          → is_key e f redis j (conc_keys e f redis rs) ≡ false)
      → All (Listed e f redis member rules estimated_tokens is_stream now_ms j) rs
  unfolding conc_keys
  conc_keys-Listed [] h = tt
  conc_keys-Listed (rule ∷ rs) h = (
    λ limit on y. first rule.max_concurrent limit on (h y),
    conc_keys-Listed rs (λ y. others rule.max_concurrent (h y)),
  )
    where
      first :
          (o : Option ℕ) (limit : ℕ)
          → o ≡ some limit
          → is_key e f redis j (elim o [
            | none ↦ conc_keys e f redis rs
            | some limit ↦ conc_key_of rule ∷ conc_keys e f redis rs
          ])
            ≡ false
          → e.same j (conc_key_of rule) ≡ false
      first none limit on h = absurd (ground arith)
      first (some l) limit on h = ground arith

      others :
          (o : Option ℕ)
          → is_key e f redis j (elim o [
            | none ↦ conc_keys e f redis rs
            | some limit ↦ conc_key_of rule ∷ conc_keys e f redis rs
          ])
            ≡ false
          → is_key e f redis j (conc_keys e f redis rs) ≡ false
      others none h = h
      others (some l) h = ground arith

  -- A request that is turned away while Redis answers keeps no entry: under no key, of any window
  -- or semaphore, is its member left, if the member was under none before.
  pub check_rate_limits-denied :
      (g : Eq Subject) (windows : EmergencyWindows) (s : Store)
      → score j member s ≡ none
      → (check_rate_limits e f redis member rules estimated_tokens is_stream now_ms g windows
          (record { store = s; up = [] })).0.allowed
        ≡ false
      → score j member
          (check_rate_limits e f redis member rules estimated_tokens is_stream now_ms g windows
            (record { store = s; up = [] })).2.store
        ≡ none
  unfolding check_rate_limits conclude
  check_rate_limits-denied g windows s fresh = go _ (
      gates-Ends rules nothing (record { store = s; up = [] }) (conc_keys-Listed rules (λ y. y))
        refl (λ x y. fresh))
    where
      go :
          (o : Result ⊥ Step × Conn Store)
          → Ends e f redis member rules estimated_tokens is_stream now_ms j o
          → (conclude e f redis member rules estimated_tokens is_stream now_ms g windows
              o.0).0.allowed
            ≡ false
          → score j member o.1.store ≡ none
      go (ok (passed a), c) h off = absurd cc
      go (ok (denied r), c) h off = h
      go (err x, c) h off = absurd h
