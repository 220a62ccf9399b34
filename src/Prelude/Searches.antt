-- ===== src/Prelude/Searches.antt =====
-- Which items a search finds in a list that was filtered, joined, mapped or put in another order.
use mathlib.Core.Bool.{Bool, not, ◌&&◌, ◌||◌}
use mathlib.Core.Path.{◌≡◌, refl, ap, ◌∙◌}
use mathlib.Core.Logic.{◌≢◌}
use mathlib.Core.List.{List, [], ◌∷◌, ◌++◌, Permᴰ}
use native.Mathlib.Omega.{arith}
use nestjs_team_tasks_api.Prelude.Tests.{StrictEquality, ◌==◌}
use nestjs_team_tasks_api.Prelude.Lists.{keep, any, has}

module _ {ℓ} {A : Type ℓ} where
  pub any-keep : (p q : A → Bool) (xs : List A) → any p (keep q xs) ≡ any (λ x. q x && p x) xs
  any-keep p q [] = refl
  any-keep p q (x ∷ xs) = ground (arith, any-keep p q xs)

  pub any-Permᴰ : (p : A → Bool) {xs ys : List A} → Permᴰ xs ys → any p xs ≡ any p ys
  any-Permᴰ p Permᴰ.nil = refl
  any-Permᴰ p (Permᴰ.cons e h) = ground (arith, ap p e, any-Permᴰ p h)
  any-Permᴰ p (Permᴰ.swap e e') = ground (arith, ap p e, ap p e')
  any-Permᴰ p (Permᴰ.trans h k) = any-Permᴰ p h ∙ any-Permᴰ p k

  pub any-or : (p q : A → Bool) (xs : List A) → (any p xs || any q xs) ≡ any (λ x. p x || q x) xs
  any-or p q [] = refl
  any-or p q (x ∷ xs) = ground (arith, any-or p q xs)

  pub any-eq : (p q : A → Bool) (xs : List A) → ((x : A) → p x ≡ q x) → any p xs ≡ any q xs
  any-eq p q [] h = refl
  any-eq p q (x ∷ xs) h = ground (arith, h x, any-eq p q xs h)

  pub keep-eq : (p q : A → Bool) (xs : List A) → ((x : A) → p x ≡ q x) → keep p xs ≡ keep q xs
  keep-eq p q [] h = refl
  keep-eq p q (x ∷ xs) h = ground (arith, h x, keep-eq p q xs h)

module _ {ℓ} {A : Type ℓ} ⦃e : StrictEquality A⦄ where
  pub has-append : (xs ys : List A) (a : A) → has (xs ++ ys) a ≡ (has xs a || has ys a)
  has-append [] ys a = refl
  has-append (x ∷ xs) ys a = ground (arith, has-append xs ys a)

  -- dropping `x` from a list does not hide another item
  pub has-keep : (x a : A) (xs : List A) → x ≢ a → has (keep (λ y. not (y == x)) xs) a ≡ has xs a
  has-keep x a [] other = refl
  has-keep x a (y ∷ ys) other =
      ground (arith, has-keep x a ys other, e.identical_iff y x, e.identical_iff y a)
