-- ===== src/Notification/Parts.antt =====
-- Lists that are left of others when some elements are taken out, in order.
use ridesharing.Prelude.{◌≡◌, ◌⊎◌, refl, List, [], ◌∷◌, ◌++◌, inl, inr}

module _ {A : Type 0} where
  -- The first list is what is left of the second when some elements are taken out.
  unfoldable pub IsPart : List A → List A → Type 0
  IsPart [] ys = Unit
  IsPart (x ∷ xs) [] = ⊥
  IsPart (x ∷ xs) (y ∷ ys) = ((x ≡ y) × IsPart xs ys) ⊎ IsPart (x ∷ xs) ys

  IsPart-weaken : (xs ys : List A) (y : A) → IsPart xs ys → IsPart xs (y ∷ ys)
  unfolding IsPart
  IsPart-weaken [] ys y p = tt
  IsPart-weaken (x ∷ xs) ys y p = inr p

  pub IsPart-tail : (a : A) (xs ys : List A) → IsPart (a ∷ xs) ys → IsPart xs ys
  unfolding IsPart
  IsPart-tail a xs [] p = absurd p
  IsPart-tail a xs (y ∷ ys) (inl p) = IsPart-weaken xs ys y p.1
  IsPart-tail a xs (y ∷ ys) (inr p) = IsPart-weaken xs ys y (IsPart-tail a xs ys p)

  pub IsPart-drop : (xs zs ys : List A) (a : A) → IsPart (xs ++ (a ∷ zs)) ys → IsPart (xs ++ zs) ys
  unfolding IsPart
  IsPart-drop [] zs ys a p = IsPart-tail a zs ys p
  IsPart-drop (x ∷ xs) zs [] a p = absurd p
  IsPart-drop (x ∷ xs) zs (y ∷ ys) a (inl p) = inl (p.0, IsPart-drop xs zs ys a p.1)
  IsPart-drop (x ∷ xs) zs (y ∷ ys) a (inr p) = inr (IsPart-drop (x ∷ xs) zs ys a p)

  pub IsPart-more : (xs ys : List A) (a : A) → IsPart xs ys → IsPart xs (ys ++ (a ∷ []))
  unfolding IsPart
  IsPart-more [] ys a p = tt
  IsPart-more (x ∷ xs) [] a p = absurd p
  IsPart-more (x ∷ xs) (y ∷ ys) a (inl p) = inl (p.0, IsPart-more xs ys a p.1)
  IsPart-more (x ∷ xs) (y ∷ ys) a (inr p) = inr (IsPart-more (x ∷ xs) ys a p)

  pub IsPart-last :
      (xs ys : List A) (a : A) → IsPart xs ys → IsPart (xs ++ (a ∷ [])) (ys ++ (a ∷ []))
  unfolding IsPart
  IsPart-last [] [] a p = inl (refl, tt)
  IsPart-last [] (y ∷ ys) a p = inr (IsPart-last [] ys a tt)
  IsPart-last (x ∷ xs) [] a p = absurd p
  IsPart-last (x ∷ xs) (y ∷ ys) a (inl p) = inl (p.0, IsPart-last xs ys a p.1)
  IsPart-last (x ∷ xs) (y ∷ ys) a (inr p) = inr (IsPart-last (x ∷ xs) ys a p)

  pub IsPart-head : (xs zs ys : List A) → IsPart (xs ++ zs) ys → IsPart xs ys
  unfolding IsPart
  IsPart-head [] zs ys p = tt
  IsPart-head (x ∷ xs) zs [] p = absurd p
  IsPart-head (x ∷ xs) zs (y ∷ ys) (inl p) = inl (p.0, IsPart-head xs zs ys p.1)
  IsPart-head (x ∷ xs) zs (y ∷ ys) (inr p) = inr (IsPart-head (x ∷ xs) zs ys p)
