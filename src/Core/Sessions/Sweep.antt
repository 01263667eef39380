-- ===== src/Core/Sessions/Sweep.antt =====
-- The loop of revoke_all_sessions where no round trip fails, as a function on stores.
use Prim.Native.String.{String}
use janus_server.Prelude.{
  ◌≡◌, ◌≢◌, refl, sym, ap, ◌∙◌, inl, inr, Bool, true, false, ◌||◌, Bool-cases, Option, none, some,
  List, [], ◌∷◌, Eq, string_eq, if◌then◌else◌,
}
use janus_server.Core.Redis.{Conn, ok}
use janus_server.Core.Redis.Records.{Records, is_in}
use janus_server.Core.Sessions.Defs.{SessionKey, access_key, refresh_key, Codec}
use janus_server.Core.Sessions.Store.{
  revoke_one, revoke_each, parsed, delete_refresh, bound_refresh, parse_record,
}

same_apart {ℓ} : {A : Type ℓ} (e : Eq A) (a b : A) → a ≢ b → e.same a b ≡ false
same_apart e a b ne = elim (Bool-cases (e.same a b)) [
  | inl same ↦ absurd (ne ((e.same_iff a b).0 same))
  | inr other ↦ other
]

if_same {ℓ} : {A : Type ℓ} (b : Bool) (x : A) → (if b then x else x) ≡ x
if_same true x = refl
if_same false x = refl

-- Tests of two injective images agree.
pub same_image {ℓ κ} :
    {A : Type ℓ} {B : Type κ} (e : Eq A) (f : Eq B) (g : A → B) (a b : A)
    → (g a ≡ g b → a ≡ b)
    → f.same (g a) (g b) ≡ e.same a b
same_image e f g a b inj = elim (Bool-cases (e.same a b)) [
  | inl same ↦ (f.same_iff _ _).1 (ap g ((e.same_iff a b).0 same)) ∙ sym same
  | inr other ↦
      same_apart f (g a) (g b) (λ q. absurd (cc (other, (e.same_iff a b).1 (inj q)))) ∙ sym other
]

access_key-inj : {g h : String} → access_key g ≡ access_key h → g ≡ h
access_key-inj q = cc

refresh_key-inj : {g h : String} → refresh_key g ≡ refresh_key h → g ≡ h
refresh_key-inj q = cc

module _ {T : Type 0} (e : Eq SessionKey) (codec : Codec T)
    (redis : Records SessionKey T String e string_eq) where
  open redis use {Store, value, members, delete, value-delete, members-delete}

  pub apart : (j k : SessionKey) → j ≢ k → e.same j k ≡ false
  apart j k = same_apart e j k

  pub value_apart : (j k : SessionKey) (s : Store) → j ≢ k → value j (delete k s) ≡ value j s
  value_apart j k s ne = value-delete j k s ∙ rw (apart j k ne) refl

  members_apart : (j k : SessionKey) (s : Store) → j ≢ k → members j (delete k s) ≡ members j s
  members_apart j k s ne = members-delete j k s ∙ rw (apart j k ne) refl

  -- The text of an access key, read as the refresh token that it is bound to.
  unfoldable pub refresh_of : Option T → Option String
  unfolding parse_record
  refresh_of raw = bound_refresh e codec redis (parsed e codec redis raw)

  abbrev pub drop : Option String → Store → Store
  drop none s = s
  drop (some h) s = delete (refresh_key h) s

  abbrev pub sweep_one : String → Store → Store
  sweep_one jti s = drop (refresh_of (value (access_key jti) s)) (delete (access_key jti) s)

  abbrev pub sweep : List String → Store → Store
  sweep [] s = s
  sweep (jti ∷ jtis) s = sweep jtis (sweep_one jti s)

  abbrev pub up_at : Store → Conn Store
  up_at s = record { store = s; up = [] }

  delete_refresh-drop :
      (o : Option String) (s : Store)
      → delete_refresh e codec redis o (up_at s) ≡ (ok tt, up_at (drop o s))
  delete_refresh-drop none s = refl
  delete_refresh-drop (some h) s = refl

  pub revoke_each-sweep :
      (jtis : List String) (s : Store)
      → revoke_each e codec redis jtis (up_at s) ≡ (ok tt, up_at (sweep jtis s))
  unfolding revoke_each revoke_one refresh_of
  revoke_each-sweep [] s = refl
  revoke_each-sweep (jti ∷ jtis) s =
      rw
        (delete_refresh-drop
          (bound_refresh e codec redis (parsed e codec redis (value (access_key jti) s)))
          (delete (access_key jti) s))
        (revoke_each-sweep jtis (sweep_one jti s))

  -- Whether the text of an access key names the refresh token.
  abbrev pub names : String → Option String → Bool
  names h none = false
  names h (some g) = string_eq.same h g

  -- Whether the record of one of the access tokens names the refresh token.
  abbrev pub bound : String → List String → Store → Bool
  bound h [] s = false
  bound h (jti ∷ jtis) s = names h (refresh_of (value (access_key jti) s)) || bound h jtis s

  drop-access :
      (o : Option String) (k : String) (s : Store)
      → value (access_key k) (drop o s) ≡ value (access_key k) s
  drop-access none k s = refl
  drop-access (some h) k s = value_apart (access_key k) (refresh_key h) s (λ q. cc)

  drop-refresh :
      (o : Option String) (h : String) (s : Store)
      → value (refresh_key h) (drop o s) ≡ (if names h o then none else value (refresh_key h) s)
  drop-refresh none h s = refl
  drop-refresh (some g) h s =
      value-delete (refresh_key h) (refresh_key g) s
      ∙ ap (λ b. if b then none else value (refresh_key h) s)
          (same_image string_eq e refresh_key h g refresh_key-inj)

  drop-members :
      (o : Option String) (k : SessionKey) (s : Store)
      → ((h : String) → k ≢ refresh_key h)
      → members k (drop o s) ≡ members k s
  drop-members none k s ne = refl
  drop-members (some h) k s ne = members_apart k (refresh_key h) s (ne h)

  sweep_one-access :
      (j k : String) (s : Store)
      → value (access_key k) (sweep_one j s)
        ≡ (if string_eq.same k j then none else value (access_key k) s)
  sweep_one-access j k s =
      drop-access (refresh_of (value (access_key j) s)) k (delete (access_key j) s)
      ∙ value-delete (access_key k) (access_key j) s
      ∙ ap (λ b. if b then none else value (access_key k) s)
          (same_image string_eq e access_key k j access_key-inj)

  sweep_one-refresh :
      (j h : String) (s : Store)
      → value (refresh_key h) (sweep_one j s)
        ≡ (if names h (refresh_of (value (access_key j) s)) then none else value (refresh_key h) s)
  sweep_one-refresh j h s =
      let o = refresh_of (value (access_key j) s) in
      drop-refresh o h (delete (access_key j) s)
      ∙ ap (λ v. if names h o then none else v)
          (value_apart (refresh_key h) (access_key j) s (λ q. cc))

  pub sweep-access :
      (k : String) (jtis : List String) (s : Store)
      → value (access_key k) (sweep jtis s)
        ≡ (if is_in string_eq k jtis then none else value (access_key k) s)
  sweep-access k [] s = refl
  sweep-access k (j ∷ jtis) s =
      sweep-access k jtis (sweep_one j s)
      ∙ ap (λ v. if is_in string_eq k jtis then none else v) (sweep_one-access j k s)
      ∙ merge (string_eq.same k j) (is_in string_eq k jtis)
    where
      merge :
          (a b : Bool)
          → (if b then none else (if a then none else value (access_key k) s))
            ≡ (if a || b then none else value (access_key k) s)
      merge true true = refl
      merge true false = refl
      merge false b = refl

  -- An access key that is gone names nothing more than it did, if it named another token.
  bound_later :
      (j h : String) (jtis : List String) (s : Store)
      → names h (refresh_of (value (access_key j) s)) ≡ false
      → bound h jtis (sweep_one j s) ≡ bound h jtis s
  unfolding refresh_of
  bound_later j h [] s no_name = refl
  bound_later j h (k ∷ jtis) s no_name =
      ap (λ b. b || bound h jtis (sweep_one j s)) same_name
      ∙ ap (λ b. names h (refresh_of (value (access_key k) s)) || b)
          (bound_later j h jtis s no_name)
    where
      pick :
          (b : Bool)
          → string_eq.same k j ≡ b
          → names h (refresh_of (if b then none else value (access_key k) s))
            ≡ names h (refresh_of (value (access_key k) s))
      pick true q = sym (
          ap (λ i. names h (refresh_of (value (access_key i) s))) ((string_eq.same_iff k j).0 q)
          ∙ no_name)
      pick false q = refl

      same_name :
          names h (refresh_of (value (access_key k) (sweep_one j s)))
          ≡ names h (refresh_of (value (access_key k) s))
      same_name =
          ap (λ v. names h (refresh_of v)) (sweep_one-access j k s) ∙ pick (string_eq.same k j) refl

  pub sweep-refresh :
      (h : String) (jtis : List String) (s : Store)
      → value (refresh_key h) (sweep jtis s)
        ≡ (if bound h jtis s then none else value (refresh_key h) s)
  sweep-refresh h [] s = refl
  sweep-refresh h (j ∷ jtis) s =
      sweep-refresh h jtis (sweep_one j s)
      ∙ ap (λ v. if bound h jtis (sweep_one j s) then none else v) (sweep_one-refresh j h s)
      ∙ merge (names h (refresh_of (value (access_key j) s))) refl
    where
      merge :
          (a : Bool)
          → names h (refresh_of (value (access_key j) s)) ≡ a
          → (if bound h jtis (sweep_one j s)
              then none
              else (if a then none else value (refresh_key h) s))
            ≡ (if a || bound h jtis s then none else value (refresh_key h) s)
      merge true q = if_same (bound h jtis (sweep_one j s)) none
      merge false q =
          ap (λ b. if b then none else value (refresh_key h) s) (bound_later j h jtis s q)

  pub sweep-members :
      (k : SessionKey) (jtis : List String) (s : Store)
      → ((h : String) → k ≢ refresh_key h)
      → ((j : String) → k ≢ access_key j)
      → members k (sweep jtis s) ≡ members k s
  sweep-members k [] s ne ne' = refl
  sweep-members k (j ∷ jtis) s ne ne' =
      sweep-members k jtis (sweep_one j s) ne ne'
      ∙ drop-members (refresh_of (value (access_key j) s)) k (delete (access_key j) s) ne
      ∙ members_apart k (access_key j) s (ne' j)
