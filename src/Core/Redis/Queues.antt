-- ===== src/Core/Redis/Queues.antt =====
-- Keys that hold a list of texts, as the Redis documentation describes them. RPUSH adds at the end,
-- LPOP takes the first, LREM with count 1 removes the first item that equals a text, LLEN measures,
-- LRANGE reads. A list without items is a key that is not there, so DEL leaves an empty list.
use janus_server.Prelude.{
  ℕ, ◌≡◌, ◌≢◌, refl, ap, ◌∙◌, Bool, true, false, ◌||◌, List, [], ◌∷◌, ◌++◌, Eq, if◌then◌else◌,
}
use janus_server.Core.Redis.Records.{is_in}

module _ {ℓ} {T : Type ℓ} (f : Eq T) where
  abbrev pub remove_first : T → List T → List T
  remove_first t [] = []
  remove_first t (x ∷ xs) = let rest = remove_first t xs in if f.same x t then xs else x ∷ rest

  abbrev pub count_first : T → List T → ℕ
  count_first t [] = 0
  count_first t (x ∷ xs) = let rest = count_first t xs in if f.same x t then 1 else rest

  pub is_in-append :
      (t : T) (xs ys : List T) → is_in f t (xs ++ ys) ≡ (is_in f t xs || is_in f t ys)
  is_in-append t [] ys = refl
  is_in-append t (x ∷ xs) ys =
      ap (λ b. f.same t x || b) (is_in-append t xs ys)
      ∙ assoc (f.same t x) (is_in f t xs) (is_in f t ys)
    where
      assoc : (a b c : Bool) → (a || (b || c)) ≡ ((a || b) || c)
      assoc true b c = refl
      assoc false b c = refl

  pub is_in-append_left :
      (t : T) (xs ys : List T) → is_in f t xs ≡ true → is_in f t (xs ++ ys) ≡ true
  is_in-append_left t xs ys h = is_in-append t xs ys ∙ ap (λ b. b || is_in f t ys) h

  pub is_in-append_right :
      (t : T) (xs ys : List T) → is_in f t ys ≡ true → is_in f t (xs ++ ys) ≡ true
  is_in-append_right t xs ys h =
      is_in-append t xs ys ∙ ap (λ b. is_in f t xs || b) h ∙ last (is_in f t xs)
    where
      last : (a : Bool) → (a || true) ≡ true
      last true = refl
      last false = refl

  pub is_in_self : (t : T) (xs : List T) → is_in f t (t ∷ xs) ≡ true
  is_in_self t xs = ap (λ b. b || is_in f t xs) ((f.same_iff t t).1 refl)

  -- The removal of another text.
  pub is_in-remove_first :
      (t u : T) (xs : List T) → t ≢ u → is_in f t xs ≡ true → is_in f t (remove_first u xs) ≡ true
  is_in-remove_first t u [] ne h = h
  is_in-remove_first t u (x ∷ xs) ne h =
      go (f.same x u) (f.same t x) refl refl h (is_in-remove_first t u xs ne)
    where
      go :
          (a b : Bool)
          → f.same x u ≡ a
          → f.same t x ≡ b
          → (b || is_in f t xs) ≡ true
          → (is_in f t xs ≡ true → is_in f t (remove_first u xs) ≡ true)
          → is_in f t (if a then xs else x ∷ remove_first u xs) ≡ true
      go true true p q h ih = absurd (ne ((f.same_iff t x).0 q ∙ (f.same_iff x u).0 p))
      go true false p q h ih = h
      go false true p q h ih = rw q refl
      go false false p q h ih = rw q (ih h)

pub record Queues (K T : Type 0) (e : Eq K) : Type 1 where
  pub Store : Type 0
  pub items : K → Store → List T
  pub put : K → List T → Store → Store
  pub items-put :
      (j k : K) (l : List T) (s : Store)
      → items j (put k l s) ≡ (if e.same j k then l else items j s)

abbrev pub plain_queues : (K T : Type 0) (e : Eq K) → Queues K T e
plain_queues K T e = record {
  Store = K → List T;
  items = λ k s. s k;
  put = λ k l s. (λ j. if e.same j k then l else s j);
  items-put = λ j k l s. refl;
}

module _ {K T : Type 0} (e : Eq K) (f : Eq T) (redis : Queues K T e) where
  open redis use {Store, items, put, items-put}

  abbrev pub rpush : K → T → Store → Store
  rpush k t s = put k (items k s ++ t ∷ []) s

  abbrev pub lrem : K → T → Store → Store
  lrem k t s = put k (remove_first f t (items k s)) s

  pub items-put_self : (k : K) (l : List T) (s : Store) → items k (put k l s) ≡ l
  items-put_self k l s =
      items-put k k l s ∙ ap (λ b. if b then l else items k s) ((e.same_iff k k).1 refl)

  pub items-put_apart : (j k : K) (l : List T) (s : Store) → j ≢ k → items j (put k l s) ≡ items j s
  items-put_apart j k l s ne = items-put j k l s ∙ pick (e.same j k) refl
    where
      pick : (b : Bool) → e.same j k ≡ b → (if b then l else items j s) ≡ items j s
      pick true q = absurd (ne ((e.same_iff j k).0 q))
      pick false q = refl
