-- ===== src/Core/LoginThrottle/Tests.antt =====
-- A failed login that locks its user name.
use Prim.Native.String.{String}
use janus_server.Prelude.{◌≡◌, refl, some, [], Eq, discrete_eq, eq_discrete, string_eq}
use janus_server.Core.Redis.{Conn, ok}
use janus_server.Core.Redis.Values.{Values, plain_values}
use janus_server.Core.LoginThrottle.{LoginKey, fail_key, lock_key, ThrottlePolicy, record_failure}
use janus_server.Core.LoginThrottle.Locks.{record_failure_lem}

abbrev String_discrete : Discrete String
String_discrete = eq_discrete string_eq

abbrev LoginKey-discrete : Discrete LoginKey
LoginKey-discrete = hlevel String_discrete

abbrev key_eq : Eq LoginKey
key_eq = discrete_eq LoginKey-discrete

abbrev server : Values LoginKey key_eq
server = plain_values LoginKey key_eq

abbrev policy : ThrottlePolicy
policy = record {
  max_failures = 5;
  lockout_seconds = 900;
  failure_window_seconds = 900;
  ip_max_failures = 50;
  ip_window_seconds = 900;
}

-- Four failures are counted for every key.
abbrev four : Conn server.Store
four = record { store = λ k. some 4; up = [] }

record_failure_lem_example :
    ((record_failure key_eq server policy "ann" (some "10.0.0.7") four).0 ≡ ok tt)
    × (server.value
          (fail_key "ann")
          (record_failure key_eq server policy "ann" (some "10.0.0.7") four).1.store
        ≡ some 5)
    × (server.value
          (lock_key "ann")
          (record_failure key_eq server policy "ann" (some "10.0.0.7") four).1.store
        ≡ some 1)
record_failure_lem_example =
    record_failure_lem key_eq server policy "ann" (some "10.0.0.7") 4 (some 4) four refl refl refl
