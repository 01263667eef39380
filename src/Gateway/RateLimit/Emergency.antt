-- ===== src/Gateway/RateLimit/Emergency.antt =====
-- src/gateway/rate_limit.py: the limiter of one process, for the time that Redis is down. The
-- dictionary of windows is a function, passed on from call to call.
use mathlib.Core.Option
use janus_server.Prelude.{
  ℕ, ◌+◌, ◌/◌, ◌==◌, leb, Bool, true, false, Option, none, some, List, [], ◌∷◌, map, Eq,
  if◌then◌else◌,
}
use janus_server.Gateway.RateLimit.Defs.{RateLimitRule, Subject, subject_key}

abbrev pub emergency_window_seconds : ℕ
emergency_window_seconds = 60

abbrev pub emergency_default_max_per_window : ℕ
emergency_default_max_per_window = 60

-- A subject's window index, and its count in that window.
abbrev pub EmergencyWindows : Type 0
EmergencyWindows = Subject → Option (ℕ × ℕ)

abbrev pub no_windows : EmergencyWindows
no_windows subject = none

unfoldable pub degraded_cap : RateLimitRule → ℕ
degraded_cap rule = Option.get_or rule.rpm_limit emergency_default_max_per_window

unfoldable pub window_index : ℕ → ℕ
window_index now_ms = now_ms / 1000 / emergency_window_seconds

-- A count in an older window is worth nothing.
abbrev pub count_in : ℕ → Option (ℕ × ℕ) → ℕ
count_in index none = 0
count_in index (some (win, count)) = if win == index then count else 0

unfoldable pub current_count : ℕ → EmergencyWindows → Subject → ℕ
current_count index windows subject = count_in index (windows subject)

-- Phase 1.
unfoldable pub has_headroom : ℕ → EmergencyWindows → List (Subject × ℕ) → Bool
unfolding current_count
has_headroom index windows [] = true
has_headroom index windows ((subject, cap) ∷ rest) =
    if leb cap (current_count index windows subject) then false else has_headroom index windows rest

module _ (e : Eq Subject) where
  -- Phase 2.
  unfoldable pub commit : ℕ → EmergencyWindows → List (Subject × ℕ) → EmergencyWindows
  unfolding current_count
  commit index windows [] = windows
  commit index windows ((subject, cap) ∷ rest) =
      let windows' : EmergencyWindows = λ s.
        if e.same s subject
        then some (index, current_count index windows subject + 1)
        else windows s in
      commit index windows' rest

  unfoldable pub emergency_admit :
      List RateLimitRule → ℕ → EmergencyWindows → Bool × EmergencyWindows
  unfolding has_headroom commit subject_key degraded_cap window_index
  emergency_admit [] now_ms windows = (true, windows)
  emergency_admit rules now_ms windows =
      let index = window_index now_ms in
      let subjects = map (λ rule. (subject_key rule, degraded_cap rule)) rules in
      if has_headroom index windows subjects
      then (true, commit index windows subjects)
      else (false, windows)
