-- ===== src/Prelude/Sorting.antt =====
-- What sorting by insertion keeps.
use Prim.Native.Nat.{ℕ, zero, suc}
use mathlib.Core.Path.{◌≡◌, refl, ap}
use mathlib.Core.Logic.{inl, inr}
use mathlib.Core.Bool.{Bool, ◌||◌, not}
use mathlib.Core.List.Perm
use mathlib.Core.List.{List, [], ◌∷◌, ◌++◌, Perm, perm_middle}
use native.Mathlib.Omega.{arith}
use pressure_platform.Prelude.Tests.{Bool-cases}
use pressure_platform.Prelude.Lists.{length, keep, take, drop, any, All, insert_by, sort_by}

module _ {ℓ} {A : Type ℓ} (le : A → A → Bool) where
  length-insert_by : (a : A) (xs : List A) → length (insert_by le a xs) ≡ suc (length xs)
  length-insert_by a [] = refl
  length-insert_by a (x ∷ xs) = ground (arith, length-insert_by a xs)

  pub length-sort_by : (xs : List A) → length (sort_by le xs) ≡ length xs
  length-sort_by [] = refl
  length-sort_by (x ∷ xs) = ground (arith, length-insert_by x (sort_by le xs), length-sort_by xs)

  any-insert_by : (p : A → Bool) (a : A) (xs : List A) → any p (insert_by le a xs) ≡ p a || any p xs
  any-insert_by p a [] = refl
  any-insert_by p a (x ∷ xs) = ground (arith, any-insert_by p a xs)

  pub any-sort_by : (p : A → Bool) (xs : List A) → any p (sort_by le xs) ≡ any p xs
  any-sort_by p [] = refl
  any-sort_by p (x ∷ xs) = ground (arith, any-insert_by p x (sort_by le xs), any-sort_by p xs)

  pub All-insert_by {κ} :
      (P : A → Type κ) (a : A) (xs : List A) → P a → All P xs → All P (insert_by le a xs)
  All-insert_by P a [] h hs = (h, tt)
  All-insert_by P a (x ∷ xs) h hs = elim (Bool-cases (le a x)) [
    | inl e ↦ rw e (h, hs)
    | inr e ↦ rw e (hs.0, All-insert_by P a xs h hs.1)
  ]

  pub All-sort_by {κ} : (P : A → Type κ) (xs : List A) → All P xs → All P (sort_by le xs)
  All-sort_by P [] hs = tt
  All-sort_by P (x ∷ xs) hs = All-insert_by P x (sort_by le xs) hs.0 (All-sort_by P xs hs.1)

  Perm-insert_by : (a : A) (xs : List A) → Perm (insert_by le a xs) (a ∷ xs)
  Perm-insert_by a [] = Perm.refl (a ∷ [])
  Perm-insert_by a (x ∷ xs) = elim (Bool-cases (le a x)) [
    | inl e ↦ rw e (Perm.refl (a ∷ x ∷ xs))
    | inr e ↦ rw e (Perm.trans (Perm.cons x (Perm-insert_by a xs)) (Perm.swap a x xs))
  ]

  pub Perm-sort_by : (xs : List A) → Perm (sort_by le xs) xs
  Perm-sort_by [] = Perm.refl []
  Perm-sort_by (x ∷ xs) =
      Perm.trans (Perm-insert_by x (sort_by le xs)) (Perm.cons x (Perm-sort_by xs))

module _ {ℓ} {A : Type ℓ} where
  -- The rows that pass a test and the rows that fail it are all rows.
  pub Perm-keep : (p : A → Bool) (xs : List A) → Perm (keep p xs ++ keep (λ x. not (p x)) xs) xs
  Perm-keep p [] = Perm.refl []
  Perm-keep p (x ∷ xs) = elim (Bool-cases (p x)) [
    | inl e ↦ rw e (Perm.cons x (Perm-keep p xs))
    | inr e ↦ rw e (
        Perm.trans (perm_middle (keep p xs) (keep (λ x. not (p x)) xs))
          (Perm.cons x (Perm-keep p xs)))
  ]

  pub take-drop : (n : ℕ) (xs : List A) → take n xs ++ drop n xs ≡ xs
  take-drop zero xs = refl
  take-drop (suc n) [] = refl
  take-drop (suc n) (x ∷ xs) = ap (◌∷◌ x) (take-drop n xs)
