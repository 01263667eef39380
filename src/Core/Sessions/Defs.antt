-- ===== src/Core/Sessions/Defs.antt =====
-- src/core/session_store.py: the keys of Redis, the records that are stored as JSON, and the data
-- that the store returns.
use Prim.Native.String.{String}
use janus_server.Prelude.{ℕ, ◌≡◌, Option, none, some, List, [], ◌∷◌, string_eq, if◌then◌else◌}
use janus_server.Prelude.Int.{ℤ}

pub data SessionKey : Type 0 where
  access_key : String → SessionKey
  user_key : ℤ → SessionKey
  refresh_key : String → SessionKey
  refresh_used_key : String → SessionKey
  users_index : SessionKey

-- The values in a JSON object: a text, an integer, null, or any other.
pub data Field : Type 0 where
  str : String → Field
  int : ℤ → Field
  null : Field
  other : Field

abbrev pub Object : Type 0
Object = List (String × Field)

-- dict.get, with `none` for a key that is missing.
unfoldable pub get : String → Object → Option Field
get name [] = none
get name ((k, v) ∷ rest) = let r = get name rest in if string_eq.same k name then some v else r

-- What json.loads does with a text.
pub data Loaded : Type 0 where
  object : Object → Loaded
  not_an_object : Loaded
  value_error : Loaded

-- The json module over the texts T, and str and int of user ids.
pub record Codec (T : Type 0) : Type 0 where
  pub dumps : Object → T
  pub loads : T → Loaded
  pub show : ℤ → String
  pub read : String → Option ℤ
  pub loads-dumps : (o : Object) → loads (dumps o) ≡ object o

-- isinstance(value, int), isinstance(value, str).
abbrev pub as_int : Option Field → Option ℤ
as_int (some (int u)) = some u
as_int (some (str t)) = none
as_int (some null) = none
as_int (some other) = none
as_int none = none

abbrev pub as_str : Option Field → Option String
as_str (some (str t)) = some t
as_str (some (int u)) = none
as_str (some null) = none
as_str (some other) = none
as_str none = none

abbrev pub nullable : Option String → Field
nullable none = null
nullable (some t) = str t

pub data RefreshOutcome : Type 0 where
  valid : RefreshOutcome
  invalid : RefreshOutcome
  reuse_detected : RefreshOutcome

pub record RefreshConsumeResult : Type 0 where
  pub outcome : RefreshOutcome
  pub user_id : Option ℤ
  pub old_access_jti : Option String

pub record SessionInfo : Type 0 where
  pub access_jti : String
  pub user_id : ℤ
  pub ip : Option String
  pub user_agent : Option String
  pub login_at : String

-- What a login stores.
pub record Login : Type 0 where
  pub user_id : ℤ
  pub access_jti : String
  pub access_ttl : ℕ
  pub refresh_hash : String
  pub refresh_ttl : ℕ
  pub ip : Option String
  pub user_agent : Option String
  pub login_at : String
