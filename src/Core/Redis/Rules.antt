-- ===== src/Core/Redis/Rules.antt =====
-- Postconditions of client code: one rule for a round trip, one for what follows another step.
use janus_server.Prelude.{◌≡◌, refl, Bool, true, false, [], ◌∷◌, List}
use janus_server.Core.Redis.{
  Conn, Client, Result, Fault, ok, err, redis_error, command, late_answer, late_command, continue,
  ◌>>=◌, pure,
}

module _ {S E A : Type 0} (Q : Result E A × Conn S → Type 0) where
  -- A round trip goes through, or it raises and leaves the store alone.
  pub command-post :
      (f : S → A × S) (c : Conn S)
      → ((up : List Bool) → Q (ok (f c.store).0, record { store = (f c.store).1; up = up }))
      → ((up : List Bool) → Q (err redis_error, record { store = c.store; up = up }))
      → Q (command f c)
  command-post f c through down = go c.up
    where
      go : (up : List Bool) → Q (command f (record { store = c.store; up = up }))
      go [] = through []
      go (true ∷ up) = through up
      go (false ∷ up) = down up

  -- A round trip whose answer may be lost: it goes through, or it raises, and it may have run.
  pub late_command-post :
      (ran : Conn S → Bool) (f : S → A × S) (c : Conn S)
      → ((up : List Bool) → Q (ok (f c.store).0, record { store = (f c.store).1; up = up }))
      → ((up : List Bool) → Q (err redis_error, record { store = c.store; up = up }))
      → ((up : List Bool)
          → ran c ≡ true
          → Q (err redis_error, record { store = (f c.store).1; up = up }))
      → Q (late_command ran f c)
  late_command-post ran f c through down served = go c.up (ran c) refl
    where
      go :
          (up : List Bool) (b : Bool)
          → ran c ≡ b
          → Q (late_answer b f (command f (record { store = c.store; up = up })))
      go [] b q = through []
      go (true ∷ up) b q = through up
      go (false ∷ up) true q = served up q
      go (false ∷ up) false q = down up

module _ {S E A B : Type 0} (P : Result E A × Conn S → Type 0)
    (Q : Result E B × Conn S → Type 0) where
  -- From a postcondition of the first step.
  pub bind-post :
      (m : Client S E A) (f : A → Client S E B) (c : Conn S)
      → P (m c)
      → ((a : A) (c' : Conn S) → P (ok a, c') → Q (f a c'))
      → ((x : Fault E) (c' : Conn S) → P (err x, c') → Q (err x, c'))
      → Q ((m >>= f) c)
  bind-post m f c p next fails = go (m c) p
    where
      go : (o : Result E A × Conn S) → P o → Q (continue o.0 f o.1)
      go (ok a, c') p = next a c' p
      go (err x, c') p = fails x c' p

-- Where no round trip is to fail.
module _ {S E A : Type 0} where
  pub command-up :
      (Q : Result E A × Conn S → Type 0) (f : S → A × S) (c : Conn S)
      → c.up ≡ []
      → Q (ok (f c.store).0, record { store = (f c.store).1; up = [] })
      → Q (command f c)
  command-up Q f c h q = go c.up h
    where
      go : (up : List Bool) → up ≡ [] → Q (command f (record { store = c.store; up = up }))
      go [] h = q
      go (b ∷ up) h = absurd cc

-- What holds of the store before a client runs holds after it, also where a round trip fails.
pub record Keeps {S E A : Type 0} (P : S → Type 0) (m : Client S E A) : Type 0 where
  pub keeps : (c : Conn S) → P c.store → P (m c).1.store

module _ {S E A : Type 0} (P : S → Type 0) where
  pub pure-Keeps : (a : A) → Keeps P (pure {E = E} a)
  pure-Keeps a = record { keeps = λ c p. p }

  pub command-Keeps : (f : S → A × S) → ((s : S) → P s → P (f s).1) → Keeps {E = E} P (command f)
  command-Keeps f keep = record {
    keeps = λ c p. command-post (λ o. P o.1.store) f c (λ up. keep c.store p) (λ up. p);
  }

module _ {S E A B : Type 0} (P : S → Type 0) where
  pub bind-Keeps :
      (m : Client S E A) (f : A → Client S E B)
      → Keeps P m
      → ((a : A) → Keeps P (f a))
      → Keeps P (m >>= f)
  bind-Keeps m f first next = record {
    keeps = λ c p.
        bind-post (λ o. P o.1.store) (λ o. P o.1.store) m f c (first.keeps c p)
          (λ a c' q. (next a).keeps c' q) (λ x c' q. q);
  }
