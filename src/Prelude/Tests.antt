-- ===== src/Prelude/Tests.antt =====
-- Boolean tests: `===` for the types that the program compares, `if`, and case lemmas.
use Prim.Native.Nat.{ℕ, compare, Ordering}
use Prim.Native.String.{String}
use mathlib.Core.Path.{◌≡◌, refl}
use mathlib.Core.Logic.{◌↔◌, ◌⊎◌, inl, inr}
use mathlib.Core.Bool.{Bool, true, false}
use mathlib.Core.Option.{Option, none, some}
use native.Mathlib.Omega.{arith}
use text.Mathlib.Text.{◌==◌ as str_eq}
use text.Mathlib.TextEquality.{eq_iff}

abbrev pub ltb : ℕ → ℕ → Bool
ltb a b = elim (compare a b) [ Ordering.lt ↦ true | _ ↦ false ]

abbrev pub leb : ℕ → ℕ → Bool
leb a b = elim (compare a b) [ Ordering.gt ↦ false | _ ↦ true ]

abbrev pub nat_eqb : ℕ → ℕ → Bool
nat_eqb a b = elim (compare a b) [ Ordering.eq ↦ true | _ ↦ false ]

infix 1 if◌then◌else◌
abbrev pub if◌then◌else◌ {ℓ} : {A : Type ℓ} → Bool → A → A → A
if true then x else y = x
if false then x else y = y

-- `===` of a type: a Boolean test that is true exactly on equal values.
pub record StrictEquality {ℓ} (A : Type ℓ) : Type ℓ where
  pub identical : A → A → Bool
  pub identical_iff : (left right : A) → (identical left right ≡ true) ↔ (left ≡ right)

pub nat_eqb_iff : (m n : ℕ) → (nat_eqb m n ≡ true) ↔ (m ≡ n)
nat_eqb_iff m n = ground arith

instance abbrev pub nat_eq : StrictEquality ℕ
nat_eq = record { identical = nat_eqb; identical_iff = nat_eqb_iff }

infix 50 ◌==◌
abbrev pub ◌==◌ {ℓ} : {A : Type ℓ} ⦃test : StrictEquality A⦄ → A → A → Bool
◌==◌ ⦃test⦄ left right = test.identical left right

instance abbrev pub string_eq : StrictEquality String
string_eq = record { identical = str_eq; identical_iff = eq_iff }

pub Bool-cases : (b : Bool) → (b ≡ true) ⊎ (b ≡ false)
Bool-cases true = inl refl
Bool-cases false = inr refl

pub Option-cases {ℓ} : {A : Type ℓ} (o : Option A) → (o ≡ none) ⊎ ((a : A) × (o ≡ some a))
Option-cases none = inl refl
Option-cases (some a) = inr (a, refl)
