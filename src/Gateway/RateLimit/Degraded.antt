-- ===== src/Gateway/RateLimit/Degraded.antt =====
-- What the limiter of one process lets through while Redis is down.
use mathlib.Core.Path.{subst}
use janus_server.Prelude.{
  ap, sym, ==_iff, ℕ, ◌+◌, ◌-◌, ◌≤◌, ◌<◌, ◌≡◌, ◌⊎◌, inl, inr, refl, Bool, true, false, Option, some,
  List, [], ◌∷◌, map, Eq, Bool-cases, if◌then◌else◌, leb, All, arith,
}
use janus_server.Gateway.RateLimit.Defs.{RateLimitRule, Subject, subject_key}
use janus_server.Gateway.RateLimit.Emergency.{
  EmergencyWindows, degraded_cap, window_index, count_in, current_count, has_headroom, commit,
  emergency_admit,
}

-- The subjects of the rules, with their caps.
abbrev subjects_of : List RateLimitRule → List (Subject × ℕ)
subjects_of rules = map (λ rule. (subject_key rule, degraded_cap rule)) rules

module _ (e : Eq Subject) (s : Subject) where
  occurs : List (Subject × ℕ) → ℕ
  occurs [] = 0
  occurs ((subject, limit) ∷ rest) = (if e.same s subject then 1 else 0) + occurs rest

  -- How many of the rules are about s.
  unfoldable pub carried : List RateLimitRule → ℕ
  unfolding occurs
  carried rules = occurs (subjects_of rules)

  bump : ℕ → EmergencyWindows → Subject → EmergencyWindows
  bump i w subject = λ t. if e.same t subject then some (i, current_count i w subject + 1) else w t

  count_in-bumped :
      (i n : ℕ) (same : Bool) (o : Option (ℕ × ℕ))
      → (same ≡ true → n ≡ count_in i o)
      → count_in i (if same then some (i, n + 1) else o) ≡ count_in i o + (if same then 1 else 0)
  count_in-bumped i n true o h = rw ((==_iff i i).1 refl) (omega (arith, h refl))
  count_in-bumped i n false o h = omega arith

  bump-count :
      (i : ℕ) (w : EmergencyWindows) (subject : Subject)
      → current_count i (bump i w subject) s
        ≡ current_count i w s + (if e.same s subject then 1 else 0)
  unfolding bump current_count
  bump-count i w subject =
      count_in-bumped i (count_in i (w subject)) (e.same s subject) (w s)
        (λ same. sym (ap (λ t. count_in i (w t)) ((e.same_iff s subject).0 same)))

  commit-count :
      (i : ℕ) (subjects : List (Subject × ℕ)) (w : EmergencyWindows)
      → current_count i (commit e i w subjects) s ≡ current_count i w s + occurs subjects
  unfolding commit occurs bump
  commit-count i [] w = omega arith
  commit-count i ((subject, limit) ∷ rest) w =
      omega (arith, commit-count i rest (bump i w subject), bump-count i w subject)

  -- The caps that the rules give s are all c.
  abbrev Caps : ℕ → List (Subject × ℕ) → Type 0
  Caps c subjects = All (λ x. e.same s x.0 ≡ true → x.1 ≡ c) subjects

  has_headroom-lt :
      (i : ℕ) (w : EmergencyWindows) (c : ℕ) (subjects : List (Subject × ℕ))
      → Caps c subjects
      → has_headroom i w subjects ≡ true
      → (occurs subjects ≡ 0) ⊎ (current_count i w s < c)
  unfolding has_headroom occurs
  has_headroom-lt i w c [] h r = inl refl
  has_headroom-lt i w c ((subject, limit) ∷ rest) (cap_of, h) r =
      elim (Bool-cases (leb limit (current_count i w subject))) [
        | inl spent ↦ absurd (ground arith)
        | inr left ↦ elim (Bool-cases (e.same s subject)) [
          | inl same ↦
              inr (
                ground (arith, cap_of same, ap (current_count i w) ((e.same_iff s subject).0 same)))
          | inr other ↦ rest_of other (has_headroom-lt i w c rest h (ground arith))
        ]
      ]
    where
      rest_of :
          e.same s subject ≡ false
          → (occurs rest ≡ 0) ⊎ (current_count i w s < c)
          → ((if e.same s subject then 1 else 0) + occurs rest ≡ 0) ⊎ (current_count i w s < c)
      rest_of other (inl unused) = inl (rw (other, unused) refl)
      rest_of other (inr lt) = inr lt

  -- A request that is let through counts once for each of its rules about s; one that is turned
  -- away counts for nobody.
  abbrev pub counted : Bool → List RateLimitRule → ℕ
  counted admitted rules = if admitted then carried rules else 0

  -- The count of every subject after a call: it grows by the rules about the subject if the
  -- request is let through, and stays if it is turned away.
  pub emergency_admit-counted :
      (rules : List RateLimitRule) (now_ms : ℕ) (w : EmergencyWindows)
      → current_count (window_index now_ms) (emergency_admit e rules now_ms w).1 s
        ≡ current_count (window_index now_ms) w s
          + counted (emergency_admit e rules now_ms w).0 rules
  unfolding emergency_admit carried occurs
  emergency_admit-counted [] now_ms w = omega arith
  emergency_admit-counted (rule ∷ rules) now_ms w =
      let subjects = subjects_of (rule ∷ rules) in
      elim (Bool-cases (has_headroom (window_index now_ms) w subjects)) [
        | inl free ↦ rw free (commit-count (window_index now_ms) subjects w)
        | inr spent ↦ rw spent (omega arith)
      ]

  emergency_admit-lt :
      (rules : List RateLimitRule) (now_ms c : ℕ) (w : EmergencyWindows)
      → Caps c (subjects_of rules)
      → (emergency_admit e rules now_ms w).0 ≡ true
      → (carried rules ≡ 0) ⊎ (current_count (window_index now_ms) w s < c)
  unfolding emergency_admit carried occurs
  emergency_admit-lt [] now_ms c w h r = inl refl
  emergency_admit-lt (rule ∷ rules) now_ms c w h r =
      let subjects = subjects_of (rule ∷ rules) in
      elim (Bool-cases (has_headroom (window_index now_ms) w subjects)) [
        | inl free ↦ has_headroom-lt (window_index now_ms) w c subjects h free
        | inr spent ↦ absurd (ground arith)
      ]

  -- How many rules about s the admitted ones of some requests carry, one after the other.
  unfoldable pub admitted : List (List RateLimitRule × ℕ) → EmergencyWindows → ℕ
  admitted [] w = 0
  admitted ((rules, now_ms) ∷ rest) w =
      counted (emergency_admit e rules now_ms w).0 rules
      + admitted rest (emergency_admit e rules now_ms w).1

  -- A request in window i, with at most one rule about s, whose cap is c.
  abbrev pub InWindow : ℕ → ℕ → List RateLimitRule × ℕ → Type 0
  InWindow i c (rules, now_ms) =
      (window_index now_ms ≡ i)
      × (carried rules ≤ 1)
      × All (λ x. e.same s x.0 ≡ true → x.1 ≡ c) (subjects_of rules)

  first_then :
      (ok : Bool) (rules : List RateLimitRule) (n n' c more : ℕ)
      → carried rules ≤ 1
      → (ok ≡ true → (carried rules ≡ 0) ⊎ (n < c))
      → n' ≡ n + counted ok rules
      → more ≤ c - n'
      → counted ok rules + more ≤ c - n
  first_then false rules n n' c more once lt grown h = omega arith
  first_then true rules n n' c more once lt grown h = go (lt refl)
    where
      go : (carried rules ≡ 0) ⊎ (n < c) → carried rules + more ≤ c - n
      go (inl unused) = omega arith
      go (inr lt) = omega arith

  -- Of any requests in one window, each with at most one rule about a subject and all of these with
  -- the cap c, no more are let through than the cap leaves; none if the count is at the cap.
  pub emergency_admit-capped :
      (i c : ℕ) (requests : List (List RateLimitRule × ℕ)) (w : EmergencyWindows)
      → All (InWindow i c) requests
      → admitted requests w ≤ c - current_count i w s
  unfolding admitted
  emergency_admit-capped i c [] w h = omega arith
  emergency_admit-capped i c ((rules, now_ms) ∷ rest) w ((same, once, caps), h) =
      first_then (emergency_admit e rules now_ms w).0 rules _ _ c _ once
        (λ r.
          subst (λ k. (carried rules ≡ 0) ⊎ (current_count k w s < c)) same
            (emergency_admit-lt rules now_ms c w caps r))
        (subst
          (λ k.
            current_count k (emergency_admit e rules now_ms w).1 s
            ≡ current_count k w s + counted (emergency_admit e rules now_ms w).0 rules)
          same (emergency_admit-counted rules now_ms w))
        (emergency_admit-capped i c rest (emergency_admit e rules now_ms w).1 h)
