-- ===== src/Core/LoginThrottle/Locks.antt =====
-- When a user name is locked.
use mathlib.Core.Path.{subst}
use Prim.Native.String.{String}
use janus_server.Prelude.{
  ℕ, ◌+◌, ◌≡◌, ◌≢◌, refl, ap, ◌∙◌, inl, inr, ◌==◌, leb, Bool, true, false, Bool-cases, Option, none,
  some, [], Eq, if◌then◌else◌,
}
use janus_server.Core.Redis.{Conn, Client, Result, ok, continue, ◌>>◌}
use janus_server.Core.Redis.Rules.{command-up, bind-post}
use janus_server.Core.Redis.Values.{Values, or_zero}
use janus_server.Core.LoginThrottle.{
  LoginKey, fail_key, lock_key, ip_key, ThrottlePolicy, write, when, record_ip, record_failure,
}

module _ (e : Eq LoginKey) (redis : Values LoginKey e) (policy : ThrottlePolicy) where
  open redis use {
    Store, value, incr, set, expire, delete, value-incr, value-set, value-expire, value-delete,
  }

  -- A step that ends well, with what holds of the store.
  abbrev pub Ends : (Store → Type 0) → Result ⊥ (Unit {0}) × Conn Store → Type 0
  Ends P (r, c) = (r ≡ ok tt) × (c.up ≡ []) × P c.store

  when-Ends :
      (P : Store → Type 0) (test : Bool) (f : Store → Store) (c : Conn Store)
      → c.up ≡ []
      → (test ≡ true → P (f c.store))
      → (test ≡ false → P c.store)
      → Ends P (when e redis policy test (write e redis policy f) c)
  when-Ends P true f c up h h' = command-up (Ends P) (λ s. (tt, f s)) c up (refl, refl, h refl)
  when-Ends P false f c up h h' = (refl, up, h' refl)

  same_self : (k : LoginKey) → e.same k k ≡ true
  same_self k = (e.same_iff k k).1 refl

  apart : (j k : LoginKey) → j ≢ k → e.same j k ≡ false
  apart j k ne = elim (Bool-cases (e.same j k)) [
    | inl same ↦ absurd (ne ((e.same_iff j k).0 same))
    | inr other ↦ other
  ]

  module _ (username : String) where
    -- The count of the failures, and the lock.
    abbrev pub Holds : Option ℕ → Option ℕ → Store → Type 0
    Holds count lock s =
        (value (fail_key username) s ≡ count) × (value (lock_key username) s ≡ lock)

    expire-Holds :
        (k : LoginKey) (t : ℕ) (count lock : Option ℕ) (s : Store)
        → Holds count lock s
        → Holds count lock (expire k t s)
    expire-Holds k t count lock s (h, h') =
        (value-expire (fail_key username) k t s ∙ h, value-expire (lock_key username) k t s ∙ h')

    incr_ip-Holds :
        (ip : String) (count lock : Option ℕ) (s : Store)
        → Holds count lock s
        → Holds count lock (incr (ip_key ip) s)
    incr_ip-Holds ip count lock s (h, h') = (
      value-incr (fail_key username) (ip_key ip) s
          ∙ rw (apart (fail_key username) (ip_key ip) (λ q. cc)) h,
      value-incr (lock_key username) (ip_key ip) s
          ∙ rw (apart (lock_key username) (ip_key ip) (λ q. cc)) h',
    )

    record_ip-Ends :
        (ip : Option String) (count lock : Option ℕ) (c : Conn Store)
        → c.up ≡ []
        → Holds count lock c.store
        → Ends (Holds count lock) (record_ip e redis policy ip c)
    unfolding record_ip
    record_ip-Ends none count lock c up h = (refl, up, h)
    record_ip-Ends (some ip) count lock c up h =
        command-up
          (λ o. Ends (Holds count lock) (
            continue o.0
              (λ n.
                when e redis policy (n == 1)
                  (write e redis policy (expire (ip_key ip) policy.ip_window_seconds)))
              o.1))
          (λ s. let s' = incr (ip_key ip) s in (or_zero (value (ip_key ip) s'), s')) c up
          (let s' = incr (ip_key ip) c.store in
            let h' = incr_ip-Holds ip count lock c.store h in
            when-Ends (Holds count lock) (or_zero (value (ip_key ip) s') == 1)
              (expire (ip_key ip) policy.ip_window_seconds) (record { store = s'; up = [] }) refl
              (λ t. expire-Holds (ip_key ip) policy.ip_window_seconds count lock s' h') (λ t. h'))

    set-Holds :
        (ex : ℕ) (count lock : Option ℕ) (reached : Bool) (s : Store)
        → reached ≡ true
        → Holds count lock s
        → Holds count (if reached then some 1 else lock) (set (lock_key username) 1 ex s)
    set-Holds ex count lock false s t h = absurd cc
    set-Holds ex count lock true s t (h, h') = (
      value-set (fail_key username) (lock_key username) 1 ex s
          ∙ rw (apart (fail_key username) (lock_key username) (λ q. cc)) h,
      value-set (lock_key username) (lock_key username) 1 ex s
          ∙ rw (same_self (lock_key username)) refl,
    )

    kept :
        (count lock : Option ℕ) (reached : Bool) (s : Store)
        → reached ≡ false
        → Holds count lock s
        → Holds count (if reached then some 1 else lock) s
    kept count lock false s t h = h
    kept count lock true s t h = absurd cc

    record_failure-Ends :
        (ip : Option String) (n : ℕ) (lock : Option ℕ) (c : Conn Store)
        → c.up ≡ []
        → or_zero (value (fail_key username) c.store) ≡ n
        → value (lock_key username) c.store ≡ lock
        → Ends
            (Holds (some (n + 1)) (if leb policy.max_failures (n + 1) then some 1 else lock))
            (record_failure e redis policy username ip c)
    unfolding record_failure
    record_failure-Ends ip n lock c up h h' =
        let s' = incr (fail_key username) c.store in
        let count = or_zero (value (fail_key username) s') in
        let counted : value (fail_key username) s' ≡ some (n + 1) =
          value-incr (fail_key username) (fail_key username) c.store
          ∙ rw (same_self (fail_key username), h) refl in
        let same_lock : value (lock_key username) s' ≡ lock =
          value-incr (lock_key username) (fail_key username) c.store
          ∙ rw (apart (lock_key username) (fail_key username) (λ q. cc)) h' in
        let reached = leb policy.max_failures count in
        let locked = if reached then some 1 else lock in
        let c' : Conn Store = record { store = s'; up = [] } in
        let tail : Client Store ⊥ (Unit {0}) =
          when e redis policy reached
            (write e redis policy (set (lock_key username) 1 policy.lockout_seconds))
          >> record_ip e redis policy ip in
        subst
          (λ k.
            Ends (Holds (some (n + 1)) (if leb policy.max_failures k then some 1 else lock))
              (record_failure e redis policy username ip c))
          (ap or_zero counted)
          (command-up
            (λ o. Ends (Holds (some (n + 1)) locked) (
              continue o.0
                (λ count.
                  when e redis policy (count == 1) (
                    write e redis policy (expire (fail_key username) policy.failure_window_seconds))
                  >> (when e redis policy (leb policy.max_failures count)
                        (write e redis policy (set (lock_key username) 1 policy.lockout_seconds))
                      >> record_ip e redis policy ip))
                o.1))
            (λ s.
              let s' = incr (fail_key username) s in (or_zero (value (fail_key username) s'), s'))
            c up
            (bind-post (Ends (Holds (some (n + 1)) lock)) (Ends (Holds (some (n + 1)) locked))
              (when e redis policy (count == 1)
                (write e redis policy (expire (fail_key username) policy.failure_window_seconds)))
              (λ _. tail) c'
              (when-Ends (Holds (some (n + 1)) lock) (count == 1)
                (expire (fail_key username) policy.failure_window_seconds) c' refl
                (λ t.
                  expire-Holds (fail_key username) policy.failure_window_seconds (some (n + 1)) lock
                    s' (counted, same_lock))
                (λ t. (counted, same_lock)))
              (λ u c'' (r, up'', held).
                bind-post (Ends (Holds (some (n + 1)) locked)) (Ends (Holds (some (n + 1)) locked))
                  (when e redis policy reached
                    (write e redis policy (set (lock_key username) 1 policy.lockout_seconds)))
                  (λ _. record_ip e redis policy ip) c''
                  (when-Ends (Holds (some (n + 1)) locked) reached
                    (set (lock_key username) 1 policy.lockout_seconds) c'' up''
                    (λ t.
                      set-Holds policy.lockout_seconds (some (n + 1)) lock reached c''.store t held)
                    (λ t. kept (some (n + 1)) lock reached c''.store t held))
                  (λ u c3 (r, up3, held). record_ip-Ends ip (some (n + 1)) locked c3 up3 held)
                  (λ x c3 (r, up3, held). absurd cc))
              (λ x c'' (r, up'', held). absurd cc)))

    -- A failed login, where no round trip fails, returns; it adds one to the count of its user name,
    -- and it locks the name if the new count reaches the limit, else the lock stays as it was.
    pub record_failure_lem :
        (ip : Option String) (n : ℕ) (lock : Option ℕ) (c : Conn Store)
        → c.up ≡ []
        → or_zero (value (fail_key username) c.store) ≡ n
        → value (lock_key username) c.store ≡ lock
        → ((record_failure e redis policy username ip c).0 ≡ ok tt)
          × (value (fail_key username) (record_failure e redis policy username ip c).1.store
              ≡ some (n + 1))
          × (value (lock_key username) (record_failure e redis policy username ip c).1.store
              ≡ (if leb policy.max_failures (n + 1) then some 1 else lock))
    record_failure_lem ip n lock c up h h' =
        let (r, up', (count, locked)) = record_failure-Ends ip n lock c up h h' in
        (r, count, locked)
