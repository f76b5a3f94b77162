-- ===== src/Prelude/Rows.antt =====
-- Rows of a table picked by a test, as the WHERE clause of an SQL statement picks them.
use Prim.Native.Nat.{◌+◌}
use mathlib.Core.Path.{◌≡◌, refl}
use mathlib.Core.Bool.{Bool, true, false}
use mathlib.Core.List.{List, [], ◌∷◌, ◌++◌}
use native.Mathlib.Omega.{arith}
use opencrow.Prelude.Tests.{if◌then◌else◌}
use opencrow.Prelude.Lists.{length}

module _ {ℓ} {A : Type ℓ} where
  abbrev pub select : (A → Bool) → List A → List A
  select p [] = []
  select p (x ∷ xs) = if p x then x ∷ select p xs else select p xs

  abbrev pub delete : (A → Bool) → List A → List A
  delete p [] = []
  delete p (x ∷ xs) = if p x then delete p xs else x ∷ delete p xs

  abbrev pub exists : (A → Bool) → List A → Bool
  exists p [] = false
  exists p (x ∷ xs) = if p x then true else exists p xs

  pub select-append :
      (p : A → Bool) (xs ys : List A) → select p (xs ++ ys) ≡ select p xs ++ select p ys
  select-append p [] ys = refl
  select-append p (x ∷ xs) ys = ground (arith, select-append p xs ys)

  pub delete-append :
      (p : A → Bool) (xs ys : List A) → delete p (xs ++ ys) ≡ delete p xs ++ delete p ys
  delete-append p [] ys = refl
  delete-append p (x ∷ xs) ys = ground (arith, delete-append p xs ys)

  pub exists-append_false :
      (p : A → Bool) (xs ys : List A)
      → exists p xs ≡ false
      → exists p ys ≡ false
      → exists p (xs ++ ys) ≡ false
  exists-append_false p [] ys h k = k
  exists-append_false p (x ∷ xs) ys h k = ground (arith, exists-append_false p xs ys)

  pub length-select-delete :
      (p : A → Bool) (xs : List A) → length (select p xs) + length (delete p xs) ≡ length xs
  length-select-delete p [] = omega arith
  length-select-delete p (x ∷ xs) = ground (arith, length-select-delete p xs)
