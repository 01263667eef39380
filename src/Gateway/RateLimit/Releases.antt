-- ===== src/Gateway/RateLimit/Releases.antt =====
-- What the releases and the settlement do to the sorted sets, where no round trip fails.
use janus_server.Prelude.{
  ℕ, ◌≡◌, refl, ◌∙◌, inl, inr, Bool, true, false, ◌&&◌, ◌||◌, Bool-cases, Option, none, some, List,
  [], ◌∷◌, Eq, if◌then◌else◌,
}
use janus_server.Prelude.Int.{ℤ, pos, same_ℤ}
use janus_server.Core.Redis.{Conn, Client, Result, ok, command, ◌>>◌, continue}
use janus_server.Core.Redis.Rules.{command-up}
use janus_server.Core.Redis.Windows.{Windows as Sets, Bucket}
use janus_server.Gateway.RateLimit.Defs.{RateLimitRule}
use janus_server.Gateway.RateLimit.Keys.{RateKey, tpm_key_of, burst_limit, tpm_bucket_ttl_ms}
use janus_server.Gateway.RateLimit.Scripts.{settle_bucket, tpm_settle}
use janus_server.Gateway.RateLimit.Gates.{
  zrem_each, rpm_keys, conc_keys, release_rpm, release_concurrent, settle_rules, settle_tpm,
}

module _ {M : Type 0} (e : Eq RateKey) (f : Eq M) (redis : Sets RateKey M e f) where
  open redis use {Store, score, zrem, score-zrem, score-hset, score-pexpire}

  abbrev pub is_key : RateKey → List RateKey → Bool
  is_key j [] = false
  is_key j (k ∷ ks) = e.same j k || is_key j ks

  -- A step that ends well, with every entry as the function says.
  abbrev pub Scores : (RateKey → M → Option ℕ) → Result ⊥ (Unit {0}) × Conn Store → Type 0
  Scores g (r, c) = (r ≡ ok tt) × (c.up ≡ []) × ((j : RateKey) (n : M) → score j n c.store ≡ g j n)

  zrem_each-Scores :
      (keys : List RateKey) (member : M) (c : Conn Store) (g : RateKey → M → Option ℕ)
      → c.up ≡ []
      → ((j : RateKey) (n : M)
          → (if is_key j keys && f.same n member then none else score j n c.store) ≡ g j n)
      → Scores g (zrem_each e f redis keys member c)
  unfolding zrem_each
  zrem_each-Scores [] member c g up h = (refl, up, h)
  zrem_each-Scores (key ∷ keys) member c g up h =
      command-up (λ o. Scores g (continue o.0 (λ _. zrem_each e f redis keys member) o.1))
        (λ s. (tt, zrem key member s)) c up
        (zrem_each-Scores keys member (record { store = zrem key member c.store; up = [] }) g refl
          (λ j n.
            merge (e.same j key) (is_key j keys) (f.same n member) (score j n c.store) _
              (score-zrem j key n member c.store)
            ∙ h j n))
    where
      merge :
          (a b same : Bool) (o o' : Option ℕ)
          → o' ≡ (if a && same then none else o)
          → (if b && same then none else o') ≡ (if (a || b) && same then none else o)
      merge true true true o o' h = refl
      merge true true false o o' h = h
      merge true false true o o' h = h
      merge true false false o o' h = h
      merge false true true o o' h = refl
      merge false true false o o' h = h
      merge false false same o o' h = h

  settle_bucket-score :
      (j k : RateKey) (n : M) (delta : ℤ) (limit ttl rate : ℕ) (o : Option Bucket) (s : Store)
      → score j n (settle_bucket e f redis k delta limit ttl rate o s).1 ≡ score j n s
  unfolding settle_bucket
  settle_bucket-score j k n delta limit ttl rate none s = refl
  settle_bucket-score j k n delta limit ttl rate (some b) s =
      score-pexpire j k n _ _ ∙ score-hset j k n _ s

  Scores-from :
      (s' s : Store)
      → ((j : RateKey) (n : M) → score j n s' ≡ score j n s)
      → (o : Result ⊥ (Unit {0}) × Conn Store) → Scores (λ j n. score j n s') o
      → Scores (λ j n. score j n s) o
  Scores-from s' s h (r, c') (r', up', h') = (r', up', λ j n. h' j n ∙ h j n)

  settle_rules-Scores :
      (rules : List RateLimitRule) (delta : ℤ) (c : Conn Store)
      → c.up ≡ []
      → Scores (λ j n. score j n c.store) (settle_rules e f redis rules delta c)
  unfolding settle_rules tpm_settle
  settle_rules-Scores [] delta c up = (refl, up, λ j n. refl)
  settle_rules-Scores (rule ∷ rules) delta c up =
      go (λ c up. settle_rules-Scores rules delta c up) rule.tpm_limit
    where
      go :
          ((c : Conn Store)
            → c.up ≡ []
            → Scores (λ j n. score j n c.store) (settle_rules e f redis rules delta c))
          → (o : Option ℕ)
          → Scores
              (λ j n. score j n c.store)
              (elim o as (λ o. Client Store ⊥ (Unit {0})) [
                | none ↦ settle_rules e f redis rules delta
                | some tpm_limit ↦
                    command (
                      tpm_settle e f redis
                        (tpm_key_of rule)
                        delta
                        (burst_limit rule tpm_limit)
                        tpm_bucket_ttl_ms
                        tpm_limit)
                    >> settle_rules e f redis rules delta
              ]
                c)
      go others none = others c up
      go others (some limit) =
          let settle =
            tpm_settle e f redis (tpm_key_of rule) delta (burst_limit rule limit) tpm_bucket_ttl_ms
              limit in
          command-up
            (λ o.
              Scores (λ j n. score j n c.store)
                (continue o.0 (λ _. settle_rules e f redis rules delta) o.1))
            settle c up
            (Scores-from (settle c.store).1 c.store
              (λ j n.
                settle_bucket-score j (tpm_key_of rule) n delta (burst_limit rule limit)
                  tpm_bucket_ttl_ms limit (redis.bucket (tpm_key_of rule) c.store) c.store)
              (settle_rules e f redis rules delta (record { store = (settle c.store).1; up = [] }))
              (others (record { store = (settle c.store).1; up = [] }) refl))

  pub release_rpm-Scores :
      (member : M) (rules : List RateLimitRule) (c : Conn Store)
      → c.up ≡ []
      → Scores
          (λ j n.
            if is_key j (rpm_keys e f redis rules) && f.same n member
            then none
            else score j n c.store)
          (release_rpm e f redis member rules c)
  unfolding release_rpm
  release_rpm-Scores member rules c up =
      let (r, up', h) = zrem_each-Scores (rpm_keys e f redis rules) member c _ up (λ j n. refl) in
      (refl, up', h)

  pub release_concurrent-Scores :
      (member : M) (rules : List RateLimitRule) (c : Conn Store)
      → c.up ≡ []
      → Scores
          (λ j n.
            if is_key j (conc_keys e f redis rules) && f.same n member
            then none
            else score j n c.store)
          (release_concurrent e f redis member rules c)
  unfolding release_concurrent
  release_concurrent-Scores member rules c up =
      let (r, up', h) = zrem_each-Scores (conc_keys e f redis rules) member c _ up (λ j n. refl) in
      (refl, up', h)

  pub settle_tpm-Scores :
      (rules : List RateLimitRule) (delta : ℤ) (c : Conn Store)
      → c.up ≡ []
      → Scores (λ j n. score j n c.store) (settle_tpm e f redis rules delta c)
  unfolding settle_tpm
  settle_tpm-Scores rules delta c up = elim (Bool-cases (same_ℤ delta (pos 0))) [
    | inl zero ↦ rw zero (refl, up, λ j n. refl)
    | inr due ↦ rw due (settle_rules-Scores rules delta c up)
  ]
