-- ===== src/Core/Sessions/Tests.antt =====
-- A user with two sessions, one of whose access records has expired.
use Prim.Native.String.{String}
use janus_server.Prelude.{
  ◌⊎◌, ne_of_apart, ◌≡◌, ◌≢◌, refl, false, true, not, ◌&&◌, none, some, List, [], ◌∷◌, Eq,
  discrete_eq, eq_discrete, string_eq, ℕ_discrete, if◌then◌else◌,
}
use janus_server.Prelude.Int.{ℤ, pos}
use janus_server.Core.Redis.{Conn, ok}
use janus_server.Core.Redis.Records.{Records, is_in, plain_records}
use janus_server.Core.Sessions.Defs.{
  SessionKey, access_key, user_key, refresh_key, users_index, Object, Loaded, object, str, int, get,
  as_int, as_str, Codec, valid, Login,
}
use janus_server.Core.Sessions.Store.{
  create_session, is_access_active, revoke_access, revoke_all_sessions, consume_refresh,
}
use janus_server.Core.Sessions.Sweep.{refresh_of, up_at, bound}
use janus_server.Core.Sessions.Runs.{Operation, create, revoke, expires, run}
use janus_server.Core.Sessions.Once.{consume_refresh-once}
use janus_server.Core.Sessions.Named.{Named}
use janus_server.Core.Sessions.Revoked.{revoke_all_sessions_lem}
use janus_server.Core.Sessions.Rotation.{
  accepted, detected, consume_refresh-consume_refresh, consume_refresh-create_session,
}

abbrev String_discrete : Discrete String
String_discrete = eq_discrete string_eq

abbrev ℤ-discrete : Discrete ℤ
unfolding ℕ_discrete
ℤ-discrete = hlevel ℕ_discrete

abbrev SessionKey-discrete : Discrete SessionKey
SessionKey-discrete = hlevel (String_discrete, ℤ-discrete)

abbrev key_eq : Eq SessionKey
key_eq = discrete_eq SessionKey-discrete

abbrev codec : Codec Loaded
codec = record {
  dumps = object;
  loads = λ t. t;
  show = λ u. "7";
  read = λ t. some (pos 7);
  loads-dumps = λ o. refl;
}

abbrev server : Records SessionKey Loaded String key_eq string_eq
server = plain_records SessionKey Loaded String key_eq string_eq

abbrev empty : server.Store
empty = (λ k. none, λ k. [])

abbrev login : String → String → Login
login jti hash = record {
  user_id = pos 7;
  access_jti = jti;
  access_ttl = 900;
  refresh_hash = hash;
  refresh_ttl = 604800;
  ip = some "10.0.0.7";
  user_agent = none;
  login_at = "2026-01-01T00:00:00+00:00";
}

-- Two logins; then the first access record expires.
abbrev both : Conn server.Store
both =
    run key_eq codec server
      (create (login "a1" "r1") ∷ create (login "a2" "r2") ∷ expires (access_key "a1") ∷ [])
      (up_at key_eq codec server empty)

abbrev operations : List Operation
operations = create (login "a3" "r3") ∷ revoke "a1" ∷ expires (access_key "a3") ∷ []

other_token : ◌≢◌ {A = String} "r1" "r3"
other_token = ne_of_apart string_eq "r1" "r3" refl

abbrev first : Conn server.Store
first = (consume_refresh key_eq codec server "r1" 60 both).1

r1_accepted : (consume_refresh key_eq codec server "r1" 60 both).0 ≡ ok (accepted (pos 7) "a1")
unfolding consume_refresh create_session get ℕ_discrete
r1_accepted = refl

r1_detected :
    (consume_refresh key_eq codec server "r1" 60 (run key_eq codec server operations first)).0
    ≡ ok (detected (pos 7))
unfolding consume_refresh create_session revoke_access get ℕ_discrete
r1_detected = refl

consume_refresh-once_example : (detected (pos 7)).outcome ≢ valid
consume_refresh-once_example =
    consume_refresh-once key_eq codec server "r1" 60 60 (accepted (pos 7) "a1") (detected (pos 7))
      operations both r1_accepted (other_token, (tt, (tt, tt))) r1_detected

-- The refresh token of the session that has expired survives.
r1_survives : bound key_eq codec server "r1" ("a2" ∷ "a1" ∷ []) both.store ≡ false
unfolding create_session get ℕ_discrete refresh_of
r1_survives = refl

abbrev after_all : Conn server.Store
after_all =
    (revoke_all_sessions key_eq codec server (pos 7) (up_at key_eq codec server both.store)).1

revoke_all_sessions_lem_example :
    ((revoke_all_sessions key_eq codec server (pos 7) (up_at key_eq codec server both.store)).0
      ≡ ok tt)
    × ((jti : String)
        → server.value (access_key jti) after_all.store ≡ (
            if is_in string_eq jti (server.members (user_key (pos 7)) both.store)
            then none
            else server.value (access_key jti) both.store))
    × ((hash : String)
        → (Named key_eq codec server hash (server.members (user_key (pos 7)) both.store) both.store
            × (server.value (refresh_key hash) after_all.store ≡ none))
          ⊎ ((Named key_eq codec server hash
                  (server.members (user_key (pos 7)) both.store)
                  both.store
                → ⊥)
              × (server.value (refresh_key hash) after_all.store
                  ≡ server.value (refresh_key hash) both.store)))
    × (server.members (user_key (pos 7)) after_all.store ≡ [])
    × ((m : String)
        → is_in string_eq m (server.members users_index after_all.store) ≡ (
            not (string_eq.same m "7")
            && is_in string_eq m (server.members users_index both.store)))
revoke_all_sessions_lem_example = revoke_all_sessions_lem key_eq codec server (pos 7) both.store

abbrev r1_record : Object
r1_record = ("user_id", int (pos 7)) ∷ ("access_jti", str "a1") ∷ []

r1_stored : server.value (refresh_key "r1") both.store ≡ some (object r1_record)
unfolding create_session ℕ_discrete
r1_stored = refl

r1_user : as_int (get "user_id" r1_record) ≡ some (pos 7)
unfolding get
r1_user = refl

r1_access : as_str (get "access_jti" r1_record) ≡ some "a1"
unfolding get
r1_access = refl

abbrev once : Conn server.Store
once = (consume_refresh key_eq codec server "r1" 60 (up_at key_eq codec server both.store)).1

consume_refresh-consume_refresh_example :
    ((consume_refresh key_eq codec server "r1" 60 (up_at key_eq codec server both.store)).0
      ≡ ok (accepted (pos 7) "a1"))
    × ((consume_refresh key_eq codec server "r1" 60 once).0 ≡ ok (detected (pos 7)))
    × ((j : String)
        → is_in string_eq j (server.members (user_key (pos 7)) both.store) ≡ true
        → server.value (access_key j) (consume_refresh key_eq codec server "r1" 60 once).1.store
          ≡ none)
    × ((other : String)
        → Named key_eq codec server other (server.members (user_key (pos 7)) both.store) both.store
        → server.value
            (refresh_key other)
            (consume_refresh key_eq codec server "r1" 60 once).1.store
          ≡ none)
    × (server.members (user_key (pos 7)) (consume_refresh key_eq codec server "r1" 60 once).1.store
        ≡ [])
consume_refresh-consume_refresh_example =
    consume_refresh-consume_refresh key_eq codec server "r1" 60 (pos 7) "a1" (object r1_record)
      r1_record both.store r1_stored refl r1_user r1_access

abbrev logged_in : Conn server.Store
logged_in =
    (create_session key_eq codec server (login "a4" "r4") (up_at key_eq codec server both.store)).1

consume_refresh-create_session_example :
    ((create_session key_eq codec server (login "a4" "r4") (up_at key_eq codec server both.store)).0
      ≡ ok tt)
    × ((is_access_active key_eq codec server "a4" logged_in).0 ≡ ok true)
    × ((consume_refresh key_eq codec server "r4" 60 logged_in).0 ≡ ok (accepted (pos 7) "a4"))
consume_refresh-create_session_example =
    consume_refresh-create_session key_eq codec server (login "a4" "r4") 60 both.store
