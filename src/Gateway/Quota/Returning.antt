-- ===== src/Gateway/Quota/Returning.antt =====
-- src/gateway/quota.py: the quota check without a script returns where no round trip fails.
use janus_server.Prelude.{
  ℕ, ◌+◌, ◌≡◌, refl, Bool, true, false, ◌&&◌, List, [], ◌∷◌, ◌++◌, ltb, Eq, if◌then◌else◌,
}
use janus_server.Prelude.Int.{ℤ, pos, ltb_ℤ, same_ℤ, ◌-ℤ◌}
use janus_server.Core.Redis.{Conn, ok, pure, late_command, ◌>>=◌, ◌>>◌}
use janus_server.Core.Redis.Counters.{Counters}
use janus_server.Gateway.Quota.Defs.{QuotaKey}
use janus_server.Gateway.Quota.Script.{Rule, Verdict, pass, fail}
use janus_server.Gateway.Quota.Fallback.{
  Fallback, increment, expire_new, take_back, judge, fallback_rules,
}

module _ (e : Eq QuotaKey) (redis : Counters QuotaKey e) (ran : Conn redis.Store → Bool) where
  open redis use {Store, count, incrby, expire, count-expire}

  -- Without a failing round trip it returns.
  module _ {A : Type 0} where
    unfoldable pub Returns : Fallback e redis ran A → Type 0
    Returns m =
        (s : Store)
        → (a : A) × (s' : Store) × (m (record { store = s; up = [] })
            ≡ (ok a, record { store = s'; up = [] }))

  module _ {A B : Type 0} where
    bind-Returns :
        (m : Fallback e redis ran A) (f : A → Fallback e redis ran B)
        → Returns m
        → ((a : A) → Returns (f a))
        → Returns (m >>= f)
    unfolding Returns
    bind-Returns m f h next s =
        let (a, s', q) = h s in let (b, s'', q') = next a s' in (b, s'', rw q q')

  take_back-Returns : (l : List (QuotaKey × ℕ)) → Returns (take_back e redis ran l)
  unfolding take_back Returns
  take_back-Returns [] s = (tt, s, refl)
  take_back-Returns ((key, a) ∷ l) s =
      bind-Returns (increment e redis ran key (pos 0 -ℤ pos a)) (λ _. take_back e redis ran l)
        (λ s. (_, _, refl)) (λ _. take_back-Returns l) s

  pub fallback_rules-Returns :
      (i : ℕ) (inc : List (QuotaKey × ℕ)) (rules : List Rule)
      → Returns (fallback_rules e redis ran i inc rules)
  unfolding fallback_rules Returns
  fallback_rules-Returns i inc [] s = (pass, s, refl)
  fallback_rules-Returns i inc (r ∷ rest) s =
      let inc' = inc ++ (r.key, r.reserve) ∷ [] in
      bind-Returns (increment e redis ran r.key (pos r.reserve)) (next inc') (λ s. (_, _, refl))
        (λ n.
          bind-Returns (expire_new e redis ran r n) (λ _. judged inc' n)
            (expires n (same_ℤ n (pos r.reserve) && ltb 0 r.ttl))
            (λ _.
              judges n (r.enforce && ltb_ℤ (pos r.limit) n)
                (fallback_rules-Returns (i + 1) inc' rest)))
        s
    where
      judged : List (QuotaKey × ℕ) → ℤ → Fallback e redis ran Verdict
      judged inc' n = judge e redis ran i r n inc' (fallback_rules e redis ran (i + 1) inc' rest)

      next : List (QuotaKey × ℕ) → ℤ → Fallback e redis ran Verdict
      next inc' n = expire_new e redis ran r n >> judged inc' n

      expires :
          (n : ℤ) (b : Bool)
          → Returns (if b then late_command ran (λ s. (tt, expire r.key r.ttl s)) else pure tt)
      expires n true s = (_, _, refl)
      expires n false s = (_, _, refl)

      judges :
          (n : ℤ) (b : Bool)
          → Returns (fallback_rules e redis ran (i + 1) (inc ++ (r.key, r.reserve) ∷ []) rest)
          → Returns (
              if b
              then take_back e redis ran (inc ++ (r.key, r.reserve) ∷ []) >> pure (fail i n)
              else fallback_rules e redis ran (i + 1) (inc ++ (r.key, r.reserve) ∷ []) rest)
      judges n true ih =
          bind-Returns (take_back e redis ran (inc ++ (r.key, r.reserve) ∷ []))
            (λ _. pure (fail i n)) (take_back-Returns (inc ++ (r.key, r.reserve) ∷ []))
            (λ _ s. (_, _, refl))
      judges n false ih = ih
