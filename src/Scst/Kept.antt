-- ===== src/Scst/Kept.antt =====
-- What holds of all items of a list, after the changes of lists that
-- server/utils/scst-config-writer.ts makes.
use esos_webui.Common.{Bool, List, [], all, all-append, arith, refl, select, true, ◌++◌, ◌∷◌, ◌≡◌}
use esos_webui.Scst.Mutators.{edit_first, drop_first}

module _ {ℓ} {A : Type ℓ} (q : A → Bool) where
  pub all-edit :
      (p : A → Bool) (f : A → A) (xs : List A)
      → ((a : A) → p a ≡ true → q a ≡ true → q (f a) ≡ true)
      → all q xs ≡ true
      → all q (edit_first p f xs) ≡ true
  unfolding all edit_first
  all-edit p f [] k h = h
  all-edit p f (x ∷ xs) k h = ground (arith, all-edit p f xs k, k x)

  pub all-drop : (p : A → Bool) (xs : List A) → all q xs ≡ true → all q (drop_first p xs) ≡ true
  unfolding all drop_first
  all-drop p [] h = h
  all-drop p (x ∷ xs) h = ground (arith, all-drop p xs)

  pub all-select : (p : A → Bool) (xs : List A) → all q xs ≡ true → all q (select p xs) ≡ true
  unfolding all select
  all-select p [] h = h
  all-select p (x ∷ xs) h = ground (arith, all-select p xs)

  pub all-push : (x : A) (xs : List A) → all q xs ≡ true → q x ≡ true → all q (xs ++ x ∷ []) ≡ true
  unfolding all
  all-push x xs h k = rw (all-append q xs (x ∷ []), h) (rw k refl)
