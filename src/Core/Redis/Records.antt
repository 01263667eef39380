-- ===== src/Core/Redis/Records.antt =====
-- Keys that hold a text, and keys that hold a set of members, as the Redis documentation describes
-- them: SET, DEL, SADD, SREM, SMEMBERS, EXPIRE. A set without members is a key that is not there.
use janus_server.Prelude.{
  ℕ, ◌≡◌, refl, ap, ◌∙◌, Bool, true, false, not, ◌&&◌, ◌||◌, Option, none, some, List, [], ◌∷◌, Eq,
  if◌then◌else◌, arith,
}

module _ {ℓ} {M : Type ℓ} (f : Eq M) where
  abbrev pub is_in : M → List M → Bool
  is_in m [] = false
  is_in m (n ∷ ns) = f.same m n || is_in m ns

  abbrev pub without : M → List M → List M
  without m [] = []
  without m (n ∷ ns) = let rest = without m ns in if f.same n m then rest else n ∷ rest

pub record Records (K T M : Type 0) (e : Eq K) (f : Eq M) : Type 1 where
  pub Store : Type 0
  pub value : K → Store → Option T
  pub members : K → Store → List M
  pub set : K → T → ℕ → Store → Store
  pub delete : K → Store → Store
  pub sadd : K → M → Store → Store
  pub srem : K → M → Store → Store
  pub expire : K → ℕ → Store → Store
  pub value-set :
      (j k : K) (t : T) (ex : ℕ) (s : Store)
      → value j (set k t ex s) ≡ (if e.same j k then some t else value j s)
  pub value-delete :
      (j k : K) (s : Store) → value j (delete k s) ≡ (if e.same j k then none else value j s)
  pub value-sadd : (j k : K) (m : M) (s : Store) → value j (sadd k m s) ≡ value j s
  pub value-srem : (j k : K) (m : M) (s : Store) → value j (srem k m s) ≡ value j s
  pub value-expire : (j k : K) (t : ℕ) (s : Store) → value j (expire k t s) ≡ value j s
  pub members-set_ne :
      (j k : K) (t : T) (ex : ℕ) (s : Store)
      → e.same j k ≡ false
      → members j (set k t ex s) ≡ members j s
  pub members-sadd_ne :
      (j k : K) (m : M) (s : Store) → e.same j k ≡ false → members j (sadd k m s) ≡ members j s
  pub members-expire : (j k : K) (t : ℕ) (s : Store) → members j (expire k t s) ≡ members j s
  pub members-delete :
      (j k : K) (s : Store) → members j (delete k s) ≡ (if e.same j k then [] else members j s)
  pub members-srem_ne :
      (j k : K) (m : M) (s : Store) → e.same j k ≡ false → members j (srem k m s) ≡ members j s
  pub is_in-sadd :
      (k : K) (n m : M) (s : Store)
      → is_in f n (members k (sadd k m s)) ≡ (f.same n m || is_in f n (members k s))
  pub is_in-srem :
      (k : K) (n m : M) (s : Store)
      → is_in f n (members k (srem k m s)) ≡ (not (f.same n m) && is_in f n (members k s))

-- Functions from keys to texts and to lists of members meet the interface.
module _ (K T M : Type 0) (e : Eq K) (f : Eq M) where
  abbrev pub Cells : Type 0
  Cells = (K → Option T) × (K → List M)

  pub self_test : (k : K) → e.same k k ≡ true
  self_test k = (e.same_iff k k).1 refl

  pub is_in-without :
      (n m : M) (ms : List M) → is_in f n (without f m ms) ≡ (not (f.same n m) && is_in f n ms)
  is_in-without n m [] = ground arith
  is_in-without n m (x ∷ ms) = go (f.same x m) (f.same n x) refl refl (is_in-without n m ms)
    where
      go :
          (a b : Bool)
          → f.same x m ≡ a
          → f.same n x ≡ b
          → is_in f n (without f m ms) ≡ (not (f.same n m) && is_in f n ms)
          → is_in f n (if a then without f m ms else x ∷ without f m ms)
            ≡ (not (f.same n m) && (b || is_in f n ms))
      go true true p q h =
          let t : f.same n m ≡ true = ap (λ y. f.same y m) ((f.same_iff n x).0 q) ∙ p in
          rw t (rw t at h)
      go true false p q h = h
      go false true p q h =
          let t : f.same n m ≡ false = ap (λ y. f.same y m) ((f.same_iff n x).0 q) ∙ p in
          rw (q, t) refl
      go false false p q h = rw q h

  pub is_in-sadd_new :
      (n m : M) (l : List M)
      → is_in f n (if is_in f m l then l else m ∷ l) ≡ (f.same n m || is_in f n l)
  is_in-sadd_new n m l = go (is_in f m l) (f.same n m) refl refl
    where
      go :
          (a b : Bool)
          → is_in f m l ≡ a
          → f.same n m ≡ b
          → is_in f n (if a then l else m ∷ l) ≡ (b || is_in f n l)
      go true true p q = ap (λ y. is_in f y l) ((f.same_iff n m).0 q) ∙ p
      go true false p q = refl
      go false b p q = rw q refl

  pub elsewhere : (b : Bool) (l l' : List M) → b ≡ false → (if b then l else l') ≡ l'
  elsewhere b l l' h = rw h refl

  pub here : (k : K) (l l' : List M) → (if e.same k k then l else l') ≡ l
  here k l l' = rw (self_test k) refl

  abbrev pub plain_records : Records K T M e f
  plain_records = record {
    Store = Cells;
    value = λ k s. s.0 k;
    members = λ k s. s.1 k;
    set = λ k t ex s. (λ j. if e.same j k then some t else s.0 j, s.1);
    delete =
        λ k s. (λ j. if e.same j k then none else s.0 j, λ j. if e.same j k then [] else s.1 j);
    sadd = λ k m s.
        (s.0, λ j. if e.same j k then (if is_in f m (s.1 j) then s.1 j else m ∷ s.1 j) else s.1 j);
    srem = λ k m s. (s.0, λ j. if e.same j k then without f m (s.1 j) else s.1 j);
    expire = λ k t s. s;
    value-set = λ j k t ex s. refl;
    value-delete = λ j k s. refl;
    value-sadd = λ j k m s. refl;
    value-srem = λ j k m s. refl;
    value-expire = λ j k t s. refl;
    members-set_ne = λ j k t ex s h. refl;
    members-delete = λ j k s. refl;
    members-sadd_ne = λ j k m s h. elsewhere _ _ _ h;
    members-srem_ne = λ j k m s h. elsewhere _ _ _ h;
    members-expire = λ j k t s. refl;
    is_in-sadd = λ k n m s. ap (is_in f n) (here k _ _) ∙ is_in-sadd_new n m (s.1 k);
    is_in-srem = λ k n m s. ap (is_in f n) (here k _ _) ∙ is_in-without n m (s.1 k);
  }
