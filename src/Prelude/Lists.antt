-- ===== src/Prelude/Lists.antt =====
-- Lists measured by native numbers, and the tests on lists that the program makes.
use Prim.Native.Nat.{ℕ, zero, suc, ◌-◌}
use mathlib.Core.Bool.{Bool, true, false, ◌||◌}
use mathlib.Core.Path.{◌≡◌, refl, ap, ◌∙◌}
use mathlib.Core.Logic.{◌⊎◌, inl, inr}
use mathlib.Core.List.{List, [], ◌∷◌, map, Memᴰ}
use native.Mathlib.Omega.{arith}
use nestjs_team_tasks_api.Prelude.Tests.{StrictEquality, ◌==◌, leb, if◌then◌else◌}

module _ {ℓ} {A : Type ℓ} where
  abbrev pub length : List A → ℕ
  length [] = 0
  length (x ∷ xs) = suc (length xs)

  abbrev pub take : ℕ → List A → List A
  take zero xs = []
  take (suc n) [] = []
  take (suc n) (x ∷ xs) = x ∷ take n xs

  abbrev pub drop : ℕ → List A → List A
  drop zero xs = xs
  drop (suc n) [] = []
  drop (suc n) (x ∷ xs) = drop n xs

  -- `Array.prototype.filter`
  abbrev pub keep : (A → Bool) → List A → List A
  keep p [] = []
  keep p (x ∷ xs) = let rest = keep p xs in if p x then x ∷ rest else rest

  -- What holds of every item.
  abbrev pub All {κ} : (A → Type κ) → List A → Type κ
  All P [] = Unit
  All P (x ∷ xs) = P x × All P xs

-- `Array.prototype.some`
abbrev pub any {ℓ} : {A : Type ℓ} → (A → Bool) → List A → Bool
any p [] = false
any p (x ∷ xs) = p x || any p xs

-- `Set.has` and `Array.includes`
abbrev pub has {ℓ} : {A : Type ℓ} ⦃e : StrictEquality A⦄ → List A → A → Bool
has [] a = false
has (x ∷ xs) a = x == a || has xs a

module _ {ℓ} {A : Type ℓ} where
  -- A map that changes only what a filter drops, into what it drops, is not seen by the filter.
  pub keep-ext : (p q : A → Bool) (xs : List A) → ((x : A) → p x ≡ q x) → keep p xs ≡ keep q xs
  keep-ext p q [] h = refl
  keep-ext p q (x ∷ xs) h = let here = h x in ground (arith, keep-ext p q xs h, here)

  pub keep-map :
      (p : A → Bool) (f : A → A) (xs : List A)
      → ((x : A) → Memᴰ x xs → (f x ≡ x) ⊎ ((p x ≡ false) × (p (f x) ≡ false)))
      → keep p (map f xs) ≡ keep p xs
  keep-map p f [] h = refl
  keep-map p f (x ∷ xs) h =
      let rest = keep-map p f xs (λ y m. h y (Memᴰ.tail m)) in
      let here = h x (Memᴰ.head refl) in ground (arith, rest, here)

  pub keep-keep :
      (p q : A → Bool) (xs : List A)
      → ((x : A) → q x ≡ true → p x ≡ true)
      → keep q (keep p xs) ≡ keep q xs
  keep-keep p q [] h = refl
  keep-keep p q (x ∷ xs) h = let here = h x in ground (arith, keep-keep p q xs h, here)

  pub mem-if :
      (b : Bool) (y : A) (xs : List A) {x : A}
      → Memᴰ x (if b then y ∷ xs else xs)
      → ((b ≡ true) × (x ≡ y)) ⊎ Memᴰ x xs
  mem-if false y xs m = inr m
  mem-if true y xs (Memᴰ.head e) = inl (refl, e)
  mem-if true y xs (Memᴰ.tail m) = inr m

  -- every item that a filter keeps passes its test and comes from the list
  pub mem-keep :
      (p : A → Bool) (xs : List A) {x : A} → Memᴰ x (keep p xs) → (p x ≡ true) × Memᴰ x xs
  mem-keep p [] m = elim m [ ]
  mem-keep p (y ∷ xs) m = elim (mem-if (p y) y (keep p xs) m) [
    | inl (h, e) ↦ (ap p e ∙ h, Memᴰ.head e)
    | inr m' ↦ let (h, m'') = mem-keep p xs m' in (h, Memᴰ.tail m'')
  ]

  pub mem-take : (n : ℕ) (xs : List A) {x : A} → Memᴰ x (take n xs) → Memᴰ x xs
  mem-take zero xs m = elim m [ ]
  mem-take (suc n) [] m = elim m [ ]
  mem-take (suc n) (y ∷ xs) (Memᴰ.head e) = Memᴰ.head e
  mem-take (suc n) (y ∷ xs) (Memᴰ.tail m) = Memᴰ.tail (mem-take n xs m)

  pub mem-drop : (n : ℕ) (xs : List A) {x : A} → Memᴰ x (drop n xs) → Memᴰ x xs
  mem-drop zero xs m = m
  mem-drop (suc n) [] m = elim m [ ]
  mem-drop (suc n) (y ∷ xs) m = Memᴰ.tail (mem-drop n xs m)

  pub length-drop : (k : ℕ) (xs : List A) → length (drop k xs) ≡ length xs - k
  length-drop zero xs = ground arith
  length-drop (suc k) [] = ground arith
  length-drop (suc k) (x ∷ xs) = ground (arith, length-drop k xs)

  pub length-take :
      (n : ℕ) (xs : List A) → length (take n xs) ≡ (if leb n (length xs) then n else length xs)
  length-take zero xs = ground arith
  length-take (suc n) [] = ground arith
  length-take (suc n) (x ∷ xs) = ground (arith, length-take n xs)

module _ {ℓ} {A B : Type ℓ} where
  pub mem-map :
      (f : A → B) (xs : List A) {y : B} → Memᴰ y (map f xs) → (x : A) × Memᴰ x xs × (y ≡ f x)
  mem-map f [] m = elim m [ ]
  mem-map f (x ∷ xs) (Memᴰ.head e) = (x, Memᴰ.head refl, e)
  mem-map f (x ∷ xs) (Memᴰ.tail m) = let (z, n, e) = mem-map f xs m in (z, Memᴰ.tail n, e)

  pub length-map : (f : A → B) (xs : List A) → length (map f xs) ≡ length xs
  length-map f [] = refl
  length-map f (x ∷ xs) = ap suc (length-map f xs)

  pub map-eq : (f g : A → B) (xs : List A) → ((x : A) → Memᴰ x xs → f x ≡ g x) → map f xs ≡ map g xs
  map-eq f g [] h = refl
  map-eq f g (x ∷ xs) h =
      ground (arith, h x (Memᴰ.head refl), map-eq f g xs (λ y m. h y (Memᴰ.tail m)))
