-- ===== src/Core/Redis.antt =====
-- The Redis client as the services of src/ see it (src/core/redis.py hands it out). The server is
-- not code of this repository: what a service needs of it is an interface in a child module. Here
-- stands the connection: each round trip may fail, and the environment chooses which ones do.
pub mod Counters
pub mod Rules
pub mod Windows
pub mod Sets
pub mod Values
pub mod Records
pub mod Queues
use janus_server.Prelude.{Bool, true, false, Option, none, some, List, [], ◌∷◌}

-- What a coroutine that talks to Redis may raise: RedisError, or an exception of its own.
pub data Fault {ℓ} (E : Type ℓ) : Type ℓ where
  redis_error : Fault E
  raised : E → Fault E

pub data Result {ℓ} (E : Type ℓ) (A : Type ℓ) : Type ℓ where
  ok : A → Result E A
  err : Fault E → Result E A

-- `up` says of the round trips to come which will go through; those behind its end all do.
pub record Conn (S : Type 0) : Type 0 where
  pub store : S
  pub up : List Bool

-- What was written before a raise stays written, so the connection comes back beside an error too.
abbrev pub Client : Type 0 → Type 0 → Type 0 → Type 0
Client S E A = Conn S → Result E A × Conn S

module _ {S E A : Type 0} where
  abbrev pub pure : A → Client S E A
  pure a c = (ok a, c)

  abbrev pub raise : E → Client S E A
  raise e c = (err (raised e), c)

  abbrev run_up : (S → A × S) → S → List Bool → Result E A × Conn S
  run_up f s up = (ok (f s).0, record { store = (f s).1; up = up })

  -- One round trip: a command, or a Lua script, which the server runs as a whole or not at all.
  abbrev pub command : (S → A × S) → Client S E A
  command f c = elim c.up [
    | [] ↦ run_up f c.store []
    | true ∷ up ↦ run_up f c.store up
    | false ∷ up ↦ (err redis_error, record { store = c.store; up = up })
  ]

  abbrev pub late_answer : Bool → (S → A × S) → Result E A × Conn S → Result E A × Conn S
  late_answer served f (ok a, c) = (ok a, c)
  late_answer true f (err x, c) = (err x, record c { store = (f c.store).1 })
  late_answer false f (err x, c) = (err x, c)

  -- A round trip of which only the answer may be lost: `ran` says of one that raises whether the
  -- server has served it all the same, as it may have where the answer came after socket_timeout.
  abbrev pub late_command : (Conn S → Bool) → (S → A × S) → Client S E A
  late_command ran f c = late_answer (ran c) f (command f c)

module _ {S E A B : Type 0} where
  abbrev pub continue : Result E A → (A → Client S E B) → Client S E B
  continue (ok a) f c = f a c
  continue (err e) f c = (err e, c)

  infixl 5 ◌>>=◌ ◌>>◌
  abbrev pub ◌>>=◌ : Client S E A → (A → Client S E B) → Client S E B
  ◌>>=◌ m f c = let (r, c') = m c in continue r f c'

  abbrev pub ◌>>◌ : Client S E A → Client S E B → Client S E B
  m >> n = m >>= λ _. n
