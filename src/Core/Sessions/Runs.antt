-- ===== src/Core/Sessions/Runs.antt =====
-- Runs of the session store: calls of its methods one after the other, keys that expire between them,
-- and round trips that fail where the environment chooses.
use Prim.Native.String.{String}
use janus_server.Prelude.{ℕ, ◌≢◌, List, [], ◌∷◌, Eq, string_eq}
use janus_server.Prelude.Int.{ℤ}
use janus_server.Core.Redis.{Conn}
use janus_server.Core.Redis.Records.{Records}
use janus_server.Core.Sessions.Defs.{SessionKey, Codec, Login}
use janus_server.Core.Sessions.Store.{
  create_session, is_access_active, revoke_access, revoke_all_sessions, consume_refresh,
  list_user_sessions, list_all_sessions,
}

pub data Operation : Type 0 where
  create : Login → Operation
  active : String → Operation
  revoke : String → Operation
  revoke_all : ℤ → Operation
  consume : String → ℕ → Operation
  list_user : ℤ → Operation
  list_all : Operation
  expires : SessionKey → Operation

-- No session is created that has the refresh token.
abbrev pub CreatesNo : String → Operation → Type 0
CreatesNo hash (create l) = hash ≢ l.refresh_hash
CreatesNo hash (active jti) = Unit
CreatesNo hash (revoke jti) = Unit
CreatesNo hash (revoke_all u) = Unit
CreatesNo hash (consume h ttl) = Unit
CreatesNo hash (list_user u) = Unit
CreatesNo hash list_all = Unit
CreatesNo hash (expires k) = Unit

module _ {T : Type 0} (e : Eq SessionKey) (codec : Codec T)
    (redis : Records SessionKey T String e string_eq) where
  open redis use {Store, delete}

  abbrev pub perform : Operation → Conn Store → Conn Store
  perform (create l) c = (create_session e codec redis l c).1
  perform (active jti) c = (is_access_active e codec redis jti c).1
  perform (revoke jti) c = (revoke_access e codec redis jti c).1
  perform (revoke_all u) c = (revoke_all_sessions e codec redis u c).1
  perform (consume h ttl) c = (consume_refresh e codec redis h ttl c).1
  perform (list_user u) c = (list_user_sessions e codec redis u c).1
  perform list_all c = (list_all_sessions e codec redis c).1
  perform (expires k) c = record c { store = delete k c.store }

  abbrev pub run : List Operation → Conn Store → Conn Store
  run [] c = c
  run (op ∷ ops) c = run ops (perform op c)
