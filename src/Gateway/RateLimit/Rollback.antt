-- ===== src/Gateway/RateLimit/Rollback.antt =====
-- A request that is turned away keeps no entry in any sorted set.
use janus_server.Prelude.{
  ℕ, ◌≡◌, refl, sym, ◌∙◌, inl, inr, Bool, true, false, ◌&&◌, ◌||◌, Bool-cases, Option, none, some,
  List, [], ◌∷◌, ◌++◌, Eq, if◌then◌else◌, arith, leb,
}
use janus_server.Prelude.Int.{ℤ, pos, ◌-ℤ◌}
use janus_server.Core.Redis.{Conn, Client, Result, ok, err, command, ◌>>=◌, pure, continue}
use janus_server.Core.Redis.Rules.{command-up, bind-post}
use janus_server.Core.Redis.Windows.{Windows as Sets, later_than}
use janus_server.Gateway.RateLimit.Defs.{RateLimitRule}
use janus_server.Gateway.RateLimit.Keys.{RateKey, RateLimitCheckResult, rpm_key_of}
use janus_server.Gateway.RateLimit.Scripts.{rpm_check}
use janus_server.Gateway.RateLimit.Gates.{
  Acquired, Step, passed, denied, suppress, deny, rpm_keys, conc_keys, release_rpm,
  release_concurrent, settle_tpm, rollback, rpm_answer, rpm_gate,
}
use janus_server.Gateway.RateLimit.Releases.{
  is_key, Scores, release_rpm-Scores, release_concurrent-Scores, settle_tpm-Scores,
}

module _ {M : Type 0} (e : Eq RateKey) (f : Eq M) (redis : Sets RateKey M e f) (member : M)
    (rules : List RateLimitRule) (estimated_tokens : ℕ) (is_stream : Bool) (now_ms : ℕ)
    (j : RateKey) where
  open redis use {
    Store, score, zadd, pexpire, zremrangebyscore, score-zadd, score-pexpire, score-hset,
    score-zremrangebyscore,
  }

  -- An entry of the request under j stands behind a gate that is noted as acquired.
  abbrev pub Noted : Acquired → Store → Type 0
  Noted a s =
      is_key e f redis j (rpm_keys e f redis a.rpm) ≡ false
      → (a.concurrent && is_key e f redis j (conc_keys e f redis rules)) ≡ false
      → score j member s ≡ none

  abbrev Clean : Result ⊥ (Unit {0}) × Conn Store → Type 0
  Clean (r, c) = (r ≡ ok tt) × (c.up ≡ []) × (score j member c.store ≡ none)

  same_member : f.same member member ≡ true
  same_member = (f.same_iff member member).1 refl

  cleared :
      (x y on same : Bool) (o : Option ℕ)
      → same ≡ true
      → (x ≡ false → (on && y) ≡ false → o ≡ none)
      → (if on
          then (if y && same then none else (if x && same then none else o))
          else (if x && same then none else o))
        ≡ none
  cleared x y on same o h own = ground arith

  last_release :
      (on : Bool) (o : Option ℕ) (c : Conn Store)
      → c.up ≡ []
      → score j member c.store ≡ o
      → (if on
          then (if is_key e f redis j (conc_keys e f redis rules) && f.same member member
              then none
              else o)
          else o)
        ≡ none
      → Clean ((if on then release_concurrent e f redis member rules else pure tt) c)
  last_release false o c up h none_left = (refl, up, h ∙ none_left)
  last_release true o c up h none_left =
      let (r, up', h') = release_concurrent-Scores e f redis member rules c up in
      (r, up', h' j member ∙ rw h none_left)

  rollback-Clean :
      (a : Acquired) (c : Conn Store)
      → c.up ≡ []
      → Noted a c.store
      → Clean (rollback e f redis member rules estimated_tokens is_stream now_ms a c)
  unfolding rollback
  rollback-Clean a c up own =
      let first = λ (j : RateKey) (n : M).
        if is_key e f redis j (rpm_keys e f redis a.rpm) && f.same n member
        then none
        else score j n c.store in
      bind-post (Scores e f redis first) Clean (release_rpm e f redis member a.rpm) _ c
        (release_rpm-Scores e f redis member a.rpm c up)
        (λ u c' (r, up', h).
          bind-post (Scores e f redis (λ j n. score j n c'.store)) Clean
            (suppress (settle_tpm e f redis a.tpm (pos estimated_tokens))) _ c'
            (quiet c' (settle_tpm-Scores e f redis a.tpm (pos estimated_tokens) c' up'))
            (λ u c'' (r, up'', h').
              last_release a.concurrent (first j member) c'' up'' (h' j member ∙ h j member) (
                cleared (is_key e f redis j (rpm_keys e f redis a.rpm))
                  (is_key e f redis j (conc_keys e f redis rules)) a.concurrent _
                  (score j member c.store) same_member own))
            (λ x c'' (r, up'', h'). absurd cc))
        (λ x c' (r, up', h). absurd cc)
    where
      quiet :
          (c' : Conn Store)
          → Scores e f redis
              (λ j n. score j n c'.store)
              (settle_tpm e f redis a.tpm (pos estimated_tokens) c')
          → Scores e f redis
              (λ j n. score j n c'.store)
              (suppress (settle_tpm e f redis a.tpm (pos estimated_tokens)) c')
      quiet c' (r, up, h) = (refl, up, h)

  -- How a gate may end.
  abbrev pub Ends : Result ⊥ Step × Conn Store → Type 0
  Ends (ok (passed a), c) = (c.up ≡ []) × Noted a c.store
  Ends (ok (denied r), c) = score j member c.store ≡ none
  Ends (err x, c) = ⊥

  pub deny-Ends :
      (a : Acquired) (result : RateLimitCheckResult) (c : Conn Store)
      → c.up ≡ []
      → Noted a c.store
      → Ends (deny e f redis member rules estimated_tokens is_stream now_ms a result c)
  deny-Ends a result c up own =
      bind-post Clean Ends (rollback e f redis member rules estimated_tokens is_stream now_ms a) _ c
        (rollback-Clean a c up own) (λ u c' (r, up', h). h) (λ x c' (r, up', h). absurd cc)

  drop_none :
      (b : ℤ) (same : Bool) (o : Option ℕ) → o ≡ none → (if same then later_than b o else o) ≡ none
  drop_none b same o h = ground arith

  pub pruned :
      (a : Acquired) (k : RateKey) (b : ℤ) (s : Store)
      → Noted a s
      → Noted a (zremrangebyscore k b s)
  pruned a k b s own x y =
      score-zremrangebyscore j k member b s ∙ drop_none b (e.same j k) _ (own x y)

  -- An entry is added under another key.
  pub added :
      (k : RateKey) (ttl : ℕ) (s : Store)
      → e.same j k ≡ false
      → score j member s ≡ none
      → score j member (pexpire k ttl (zadd k now_ms member s)) ≡ none
  added k ttl s other h =
      score-pexpire j k member ttl _ ∙ score-zadd j k member member now_ms s ∙ rw other h

  or_right : (a b : Bool) → (a || b) ≡ false → b ≡ false
  or_right a b h = ground arith

  or_left : (a b : Bool) → (a || b) ≡ false → a ≡ false
  or_left a b h = ground arith

  is_key-rpm_keys-append :
      (xs ys : List RateLimitRule)
      → is_key e f redis j (rpm_keys e f redis (xs ++ ys))
        ≡ (is_key e f redis j (rpm_keys e f redis xs) || is_key e f redis j (rpm_keys e f redis ys))
  unfolding rpm_keys
  is_key-rpm_keys-append [] ys = refl
  is_key-rpm_keys-append (x ∷ xs) ys = go x.rpm_limit (is_key-rpm_keys-append xs ys)
    where
      go :
          (o : Option ℕ)
          → is_key e f redis j (rpm_keys e f redis (xs ++ ys)) ≡ (
              is_key e f redis j (rpm_keys e f redis xs)
              || is_key e f redis j (rpm_keys e f redis ys))
          → is_key e f redis j (elim o [
            | none ↦ rpm_keys e f redis (xs ++ ys)
            | some limit ↦ rpm_key_of x ∷ rpm_keys e f redis (xs ++ ys)
          ])
            ≡ (is_key e f redis j (elim o [
              | none ↦ rpm_keys e f redis xs
              | some limit ↦ rpm_key_of x ∷ rpm_keys e f redis xs
            ])
                || is_key e f redis j (rpm_keys e f redis ys))
      go none h = h
      go (some limit) h = ground (arith, h)

  rpm_key_other :
      (rule : RateLimitRule) (limit : ℕ) (xs : List RateLimitRule)
      → rule.rpm_limit ≡ some limit
      → is_key e f redis j (rpm_keys e f redis (xs ++ rule ∷ [])) ≡ false
      → (is_key e f redis j (rpm_keys e f redis xs) ≡ false) × (e.same j (rpm_key_of rule) ≡ false)
  unfolding rpm_keys
  rpm_key_other rule limit xs on h =
      let both = sym (is_key-rpm_keys-append xs (rule ∷ [])) ∙ h in
      (
        or_left _ _ both,
        or_left _ _ (rw on at (or_right (is_key e f redis j (rpm_keys e f redis xs)) _ both)),
      )

  rpm_answer-Ends :
      (rule : RateLimitRule) (limit : ℕ) (a : Acquired) (s : Store)
      → rule.rpm_limit ≡ some limit
      → Noted a s
      → Ends (
          rpm_answer e f redis member rules estimated_tokens is_stream now_ms rule a limit
            (rpm_check e f redis (rpm_key_of rule) now_ms 60000 limit member s).0
            (record {
              store = (rpm_check e f redis (rpm_key_of rule) now_ms 60000 limit member s).1;
              up = [];
            }))
  unfolding rpm_answer rpm_check
  rpm_answer-Ends rule limit a s on own =
      let k = rpm_key_of rule in
      let b = pos now_ms -ℤ pos 60000 in
      let s' = zremrangebyscore k b s in
      elim (Bool-cases (leb limit (redis.card k s'))) [
        | inl full ↦ rw full (deny-Ends a _ _ refl (pruned a k b s own))
        | inr free ↦ rw free (
          refl,
          λ x y.
              let (others, other) = rpm_key_other rule limit a.rpm on x in
              added k 61000 s' other (pruned a k b s own others y),
        )
      ]

  pub rpm_gate-Ends :
      (rule : RateLimitRule) (a : Acquired) (c : Conn Store)
      → c.up ≡ []
      → Noted a c.store
      → Ends (rpm_gate e f redis member rules estimated_tokens is_stream now_ms rule a c)
  unfolding rpm_gate
  rpm_gate-Ends rule a c up own = go rule.rpm_limit refl
    where
      go :
          (o : Option ℕ)
          → rule.rpm_limit ≡ o
          → Ends (
              elim o as (λ o. Client Store ⊥ Step) [
                | none ↦ pure (passed a)
                | some limit ↦
                    command (rpm_check e f redis (rpm_key_of rule) now_ms 60000 limit member)
                    >>= rpm_answer e f redis member rules estimated_tokens is_stream now_ms rule a
                        limit
              ]
                c)
      go none on = (up, own)
      go (some limit) on =
          command-up
            (λ o. Ends (
              continue o.0
                (rpm_answer e f redis member rules estimated_tokens is_stream now_ms rule a limit)
                o.1))
            (rpm_check e f redis (rpm_key_of rule) now_ms 60000 limit member) c up
            (rpm_answer-Ends rule limit a c.store on own)
