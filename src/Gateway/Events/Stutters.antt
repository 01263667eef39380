-- ===== src/Gateway/Events/Stutters.antt =====
-- Logs of events that may repeat an event directly behind itself (src/gateway/events.py).
use janus_server.Prelude.{◌≡◌, refl, ◌∙◌, ◌⊎◌, inl, inr, List, [], ◌∷◌, ◌++◌}

-- The second list is the first, but an item may be repeated directly behind itself. A repetition
-- needs the reason R.
module _ {T : Type 0} (R : Type 0) where
  abbrev pub Stutters : List T → List T → Type 0
  Stutters [] [] = Unit
  Stutters [] (y ∷ ys) = ⊥
  Stutters (x ∷ xs) [] = ⊥
  Stutters (x ∷ xs) (y ∷ ys) = (x ≡ y) × (Stutters xs ys ⊎ (Stutters (x ∷ xs) ys × R))

  pub Stutters-refl : (xs : List T) → Stutters xs xs
  Stutters-refl [] = tt
  Stutters-refl (x ∷ xs) = (refl, inl (Stutters-refl xs))

  pub Stutters-prefix : (l xs ys : List T) → Stutters xs ys → Stutters (l ++ xs) (l ++ ys)
  Stutters-prefix [] xs ys h = h
  Stutters-prefix (x ∷ l) xs ys h = (refl, inl (Stutters-prefix l xs ys h))

  pub Stutters-suffix : (l xs ys : List T) → Stutters xs ys → Stutters (xs ++ l) (ys ++ l)
  Stutters-suffix l [] [] h = Stutters-refl l
  Stutters-suffix l [] (y ∷ ys) h = elim h [ ]
  Stutters-suffix l (x ∷ xs) [] h = elim h [ ]
  Stutters-suffix l (x ∷ xs) (y ∷ ys) (q, inl h) = (q, inl (Stutters-suffix l xs ys h))
  Stutters-suffix l (x ∷ xs) (y ∷ ys) (q, inr (h, r)) =
      (q, inr (Stutters-suffix l (x ∷ xs) ys h, r))

  pub Stutters-trans : (xs ys zs : List T) → Stutters xs ys → Stutters ys zs → Stutters xs zs
  Stutters-trans [] [] zs h h' = h'
  Stutters-trans [] (y ∷ ys) zs h h' = elim h [ ]
  Stutters-trans (x ∷ xs) [] zs h h' = elim h [ ]
  Stutters-trans (x ∷ xs) (y ∷ ys) [] h h' = h'
  Stutters-trans (x ∷ xs) (y ∷ ys) (z ∷ zs) (q, inl h) (q', inl h') =
      (q ∙ q', inl (Stutters-trans xs ys zs h h'))
  Stutters-trans (x ∷ xs) (y ∷ ys) (z ∷ zs) (q, inr (h, r)) (q', inl h') =
      (q ∙ q', inr (Stutters-trans (x ∷ xs) ys zs h h', r))
  Stutters-trans (x ∷ xs) (y ∷ ys) (z ∷ zs) (q, h) (q', inr (h', r)) =
      (q ∙ q', inr (Stutters-trans (x ∷ xs) (y ∷ ys) zs (q, h) h', r))

  pub Stutters-again : (x : T) (xs : List T) → R → Stutters (x ∷ xs) (x ∷ x ∷ xs)
  Stutters-again x xs r = (refl, inr (Stutters-refl (x ∷ xs), r))
