-- ===== src/Core/Sessions/Named.antt =====
-- The refresh tokens that the records of a user's access tokens name (src/core/session_store.py).
use Prim.Native.String.{String}
use janus_server.Prelude.{
  ◌≡◌, refl, sym, ap, ◌∙◌, inl, inr, Bool, true, false, ◌||◌, Bool-cases, Option, none, some, List,
  [], ◌∷◌, Eq, string_eq, if◌then◌else◌, ◌⊎◌,
}
use janus_server.Core.Redis.Records.{Records, is_in}
use janus_server.Core.Sessions.Defs.{
  SessionKey, access_key, refresh_key, Object, get, Loaded, object, not_an_object, value_error,
  Codec, as_str,
}
use janus_server.Core.Sessions.Store.{parse_record, bound_refresh, result_of}
use janus_server.Core.Sessions.Sweep.{refresh_of, bound, names}

module _ {T : Type 0} (e : Eq SessionKey) (codec : Codec T)
    (redis : Records SessionKey T String e string_eq) where
  open redis use {Store, value, members}

  -- An access token of the list has a record that can be read, whose refresh_hash is the hash.
  pub record Named (hash : String) (jtis : List String) (s : Store) : Type 0 where
    pub jti : String
    pub raw : T
    pub record_of : Object
    pub indexed : is_in string_eq jti jtis ≡ true
    pub there : value (access_key jti) s ≡ some raw
    pub read : codec.loads raw ≡ object record_of
    pub names_it : as_str (get "refresh_hash" record_of) ≡ some hash

  Named-later :
      (hash j : String) (jtis : List String) (s : Store)
      → Named hash jtis s
      → Named hash (j ∷ jtis) s
  Named-later hash j jtis s n = record {
    jti = n.jti;
    raw = n.raw;
    record_of = n.record_of;
    indexed = later (string_eq.same n.jti j) n.indexed;
    there = n.there;
    read = n.read;
    names_it = n.names_it;
  }
    where
      later : {b : Bool} (a : Bool) → b ≡ true → (a || b) ≡ true
      later true h = refl
      later false h = h

  -- Whether a text names the hash is whether it names it when it is read.
  first-Named :
      (hash j : String) (jtis : List String) (s : Store)
      → names e codec redis hash (refresh_of e codec redis (value (access_key j) s)) ≡ true
      → Named hash (j ∷ jtis) s
  unfolding refresh_of parse_record
  first-Named hash j jtis s h = go (value (access_key j) s) refl h
    where
      found :
          (raw : T) (r : Object) (o : Option String)
          → value (access_key j) s ≡ some raw
          → codec.loads raw ≡ object r
          → as_str (get "refresh_hash" r) ≡ o
          → names e codec redis hash o ≡ true
          → Named hash (j ∷ jtis) s
      found raw r none q read name h = absurd cc
      found raw r (some g) q read name h = record {
        jti = j;
        raw = raw;
        record_of = r;
        indexed = ap (λ b. b || is_in string_eq j jtis) ((string_eq.same_iff j j).1 refl);
        there = q;
        read = read;
        names_it = name ∙ ap some (sym ((string_eq.same_iff hash g).0 h));
      }

      decoded :
          (raw : T) (o : Loaded)
          → value (access_key j) s ≡ some raw
          → codec.loads raw ≡ o
          → names e codec redis hash (bound_refresh e codec redis (result_of o)) ≡ true
          → Named hash (j ∷ jtis) s
      decoded raw (object r) q read h = found raw r (as_str (get "refresh_hash" r)) q read refl h
      decoded raw not_an_object q read h = absurd cc
      decoded raw value_error q read h = absurd cc

      go :
          (o : Option T)
          → value (access_key j) s ≡ o
          → names e codec redis hash (refresh_of e codec redis o) ≡ true
          → Named hash (j ∷ jtis) s
      go none q h = absurd cc
      go (some raw) q h = decoded raw (codec.loads raw) q refl h

  names-Named :
      (hash : String) (raw : T) (r : Object)
      → codec.loads raw ≡ object r
      → as_str (get "refresh_hash" r) ≡ some hash
      → names e codec redis hash (refresh_of e codec redis (some raw)) ≡ true
  unfolding refresh_of parse_record
  names-Named hash raw r read named = rw (read, named) ((string_eq.same_iff hash hash).1 refl)

  pub bound-Named :
      (hash : String) (jtis : List String) (s : Store)
      → bound e codec redis hash jtis s ≡ true
      → Named hash jtis s
  bound-Named hash [] s h = absurd cc
  bound-Named hash (j ∷ jtis) s h =
      elim (Bool-cases
        (names e codec redis hash (refresh_of e codec redis (value (access_key j) s)))) [
          | inl named ↦ first-Named hash j jtis s named
          | inr other ↦ Named-later hash j jtis s (bound-Named hash jtis s (rw other at h))
        ]

  Named-names :
      (hash : String) (jtis : List String) (s : Store) (n : Named hash jtis s)
      → names e codec redis hash (refresh_of e codec redis (value (access_key n.jti) s)) ≡ true
  Named-names hash jtis s n =
      ap (λ o. names e codec redis hash (refresh_of e codec redis o)) n.there
      ∙ names-Named hash n.raw n.record_of n.read n.names_it

  bound_of :
      (hash j : String) (jtis : List String) (s : Store)
      → is_in string_eq j jtis ≡ true
      → names e codec redis hash (refresh_of e codec redis (value (access_key j) s)) ≡ true
      → bound e codec redis hash jtis s ≡ true
  bound_of hash j [] s h named = absurd cc
  bound_of hash j (k ∷ jtis) s h named =
      go (string_eq.same j k) refl h (λ i. bound_of hash j jtis s i named)
    where
      later : {b : Bool} (a : Bool) → b ≡ true → (a || b) ≡ true
      later true h = refl
      later false h = h

      go :
          (b : Bool)
          → string_eq.same j k ≡ b
          → (b || is_in string_eq j jtis) ≡ true
          → (is_in string_eq j jtis ≡ true → bound e codec redis hash jtis s ≡ true)
          → bound e codec redis hash (k ∷ jtis) s ≡ true
      go true q h rest =
          ap
            (λ i.
              names e codec redis hash (refresh_of e codec redis (value (access_key i) s))
              || bound e codec redis hash jtis s)
            (sym ((string_eq.same_iff j k).0 q))
          ∙ ap (λ b. b || bound e codec redis hash jtis s) named
      go false q h rest = later _ (rest h)

  pub Named-bound :
      (hash : String) (jtis : List String) (s : Store)
      → Named hash jtis s
      → bound e codec redis hash jtis s ≡ true
  Named-bound hash jtis s n = bound_of hash n.jti jtis s n.indexed (Named-names hash jtis s n)

  -- What is left of a refresh token, told by the test or by the records.
  pub left_of :
      (hash : String) (jtis : List String) (s : Store) (o : Option T)
      → o ≡ (if bound e codec redis hash jtis s then none else value (refresh_key hash) s)
      → (Named hash jtis s × (o ≡ none))
        ⊎ ((Named hash jtis s → ⊥) × (o ≡ value (refresh_key hash) s))
  left_of hash jtis s o q = elim (Bool-cases (bound e codec redis hash jtis s)) [
    | inl named ↦ inl (bound-Named hash jtis s named, q ∙ rw named refl)
    | inr free ↦ inr (λ n. absurd (cc (Named-bound hash jtis s n, free)), q ∙ rw free refl)
  ]
