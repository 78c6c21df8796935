-- ===== src/Scst/Distinct.antt =====
-- Lists without repetitions, by a Boolean comparison, and what keeps them so: taking items away, and
-- putting in an item that is new.
use esos_webui.Common.{
  All, Bool, List, [], any, arith, false, if◌then◌else◌, not, refl, select, true, ◌&&◌, ◌++◌, ◌||◌,
  ◌∷◌, ◌≡◌,
}

pub data Sub {ℓ} {A : Type ℓ} : List A → List A → Type ℓ where
  done : Sub [] []
  keep : {xs ys : List A} (x : A) → Sub xs ys → Sub (x ∷ xs) (x ∷ ys)
  skip : {xs ys : List A} (y : A) → Sub xs ys → Sub xs (y ∷ ys)

module _ {ℓ} {A : Type ℓ} where
  pub Sub-refl : (xs : List A) → Sub xs xs
  Sub-refl [] = done
  Sub-refl (x ∷ xs) = keep x (Sub-refl xs)

  pub Sub-append : {xs ys us vs : List A} → Sub xs ys → Sub us vs → Sub (xs ++ us) (ys ++ vs)
  Sub-append done t = t
  Sub-append (keep x s) t = keep x (Sub-append s t)
  Sub-append (skip y s) t = skip y (Sub-append s t)

  pub Sub-drop : (xs : List A) {us vs : List A} → Sub us vs → Sub us (xs ++ vs)
  Sub-drop [] t = t
  Sub-drop (x ∷ xs) t = skip x (Sub-drop xs t)

  pub Sub-select : (p : A → Bool) (xs : List A) → Sub (select p xs) xs
  unfolding select
  Sub-select p [] = done
  Sub-select p (x ∷ xs) =
      elim (p x) as (λ b. Sub (if b then x ∷ select p xs else select p xs) (x ∷ xs)) [
        | true ↦ keep x (Sub-select p xs)
        | false ↦ skip x (Sub-select p xs)
      ]

  pub Sub-any : (p : A → Bool) {xs ys : List A} → Sub xs ys → any p ys ≡ false → any p xs ≡ false
  unfolding any
  Sub-any p done h = h
  Sub-any p (keep x s) h = ground (arith, Sub-any p s)
  Sub-any p (skip y s) h = ground (arith, Sub-any p s)

  pub any-append : (p : A → Bool) (xs ys : List A) → any p (xs ++ ys) ≡ (any p xs || any p ys)
  unfolding any
  any-append p [] ys = refl
  any-append p (x ∷ xs) ys = ground (arith, any-append p xs ys)

  pub any-ext : (p q : A → Bool) (xs : List A) → All (λ x. p x ≡ q x) xs → any p xs ≡ any q xs
  unfolding any
  any-ext p q [] h = refl
  any-ext p q (x ∷ xs) (e, h) = cc (e, any-ext p q xs h)

  -- No two items are the same.
  unfoldable pub distinct : (A → A → Bool) → List A → Bool
  unfolding any
  distinct same [] = true
  distinct same (x ∷ xs) = not (any (same x) xs) && distinct same xs

  pub distinct-Sub :
      (same : A → A → Bool) {xs ys : List A}
      → Sub xs ys
      → distinct same ys ≡ true
      → distinct same xs ≡ true
  unfolding distinct
  distinct-Sub same done h = h
  distinct-Sub same (keep x s) h = ground (arith, distinct-Sub same s, Sub-any (same x) s)
  distinct-Sub same (skip y s) h = ground (arith, distinct-Sub same s)

  module _ (same : A → A → Bool) (sym_same : (x y : A) → same x y ≡ same y x) (a : A) where
    any-insert :
        (x : A) (xs ys : List A)
        → same a x ≡ false
        → any (same x) (xs ++ ys) ≡ false
        → any (same x) (xs ++ (a ∷ ys)) ≡ false
    unfolding any
    any-insert x [] ys h k = ground (arith, sym_same x a)
    any-insert x (z ∷ xs) ys h k = ground (arith, any-insert x xs ys h)

    pub distinct-insert :
        (xs ys : List A)
        → any (same a) (xs ++ ys) ≡ false
        → distinct same (xs ++ ys) ≡ true
        → distinct same (xs ++ (a ∷ ys)) ≡ true
    unfolding distinct any
    distinct-insert [] ys h k = ground arith
    distinct-insert (x ∷ xs) ys h k = ground (arith, any-insert x xs ys, distinct-insert xs ys)
