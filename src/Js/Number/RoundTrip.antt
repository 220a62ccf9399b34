-- ===== src/Js/Number/RoundTrip.antt =====
-- Printing an integer and reading it back.
use Prim.Native.Char.{Char, code}
use Prim.Native.String.{[], ◌∷◌}
use mathlib.Core.Path.{subst}
use nestjs_team_tasks_api.Prelude.{
  ℕ, zero, suc, ◌+◌, ◌*◌, ◌/◌, ◌%◌, ◌<◌, String, true, some, ◌≡◌, ◌≢◌, refl, sym, ◌∙◌, ap, arith,
  ltb, inl, inr, Bool-cases,
}
use nestjs_team_tasks_api.Js.Number.{
  ℤ, pos, negsuc, is_digit, digits_from, parse_digits, parse_signed, is_space, skip_spaces,
  parse_int, digit, show_onto, show_nat, show_int,
}

digit_lem : (d : ℕ) → d < 10 → (is_digit (digit d) ≡ true) × (code (digit d) ≡ b'0' + d)
unfolding is_digit digit
digit_lem zero h = (refl, refl)
digit_lem (suc zero) h = (refl, refl)
digit_lem (suc (suc zero)) h = (refl, refl)
digit_lem (suc (suc (suc zero))) h = (refl, refl)
digit_lem (suc (suc (suc (suc zero)))) h = (refl, refl)
digit_lem (suc (suc (suc (suc (suc zero))))) h = (refl, refl)
digit_lem (suc (suc (suc (suc (suc (suc zero)))))) h = (refl, refl)
digit_lem (suc (suc (suc (suc (suc (suc (suc zero))))))) h = (refl, refl)
digit_lem (suc (suc (suc (suc (suc (suc (suc (suc zero)))))))) h = (refl, refl)
digit_lem (suc (suc (suc (suc (suc (suc (suc (suc (suc zero))))))))) h = (refl, refl)
digit_lem (suc (suc (suc (suc (suc (suc (suc (suc (suc (suc n)))))))))) h = absurd (omega arith)

pub digit-ne-colon : (c : Char) → is_digit c ≡ true → code c ≢ b':'
unfolding is_digit
digit-ne-colon c h = ground arith

digits_from-digit :
    (acc d : ℕ) (out : String)
    → d < 10
    → digits_from acc (digit d ∷ out) ≡ digits_from (acc * 10 + d) out
unfolding digits_from
digits_from-digit acc d out h =
    let (is, c) = digit_lem d h in rw (is, c) (ap (λ v. digits_from v out) (omega arith))

digits_from-show_onto :
    (fuel n : ℕ) (out : String)
    → n < fuel
    → digits_from 0 (show_onto fuel n out) ≡ digits_from n out
unfolding show_onto
digits_from-show_onto zero n out h = absurd (omega arith)
digits_from-show_onto (suc fuel) n out h = elim (Bool-cases (ltb n 10)) [
  | inl small ↦
      rw small (
        digits_from-digit 0 (n % 10) out (omega arith) ∙ ap (λ v. digits_from v out) (ground arith))
  | inr large ↦ rw large (
      digits_from-show_onto fuel (n / 10) (digit (n % 10) ∷ out) (ground arith)
      ∙ digits_from-digit (n / 10) (n % 10) out (omega arith)
      ∙ ap (λ v. digits_from v out) (omega arith))
]

-- what a printed number looks like: decimal digits, at least one
abbrev pub AllDigits : String → Type 0
AllDigits [] = Unit
AllDigits (c ∷ s) = (is_digit c ≡ true) × AllDigits s

show_onto-digits : (fuel n : ℕ) (out : String) → AllDigits out → AllDigits (show_onto fuel n out)
unfolding show_onto
show_onto-digits zero n out h = h
show_onto-digits (suc fuel) n out h = elim (Bool-cases (ltb n 10)) [
  | inl small ↦ rw small ((digit_lem (n % 10) (omega arith)).0, h)
  | inr large ↦ rw large (
      show_onto-digits fuel (n / 10) (digit (n % 10) ∷ out)
        ((digit_lem (n % 10) (omega arith)).0, h))
]

show_onto-cons :
    (fuel n : ℕ) (d : Char) (out : String)
    → (c : Char) × (s : String) × (show_onto fuel n (d ∷ out) ≡ c ∷ s)
unfolding show_onto
show_onto-cons zero n d out = (d, out, refl)
show_onto-cons (suc fuel) n d out = elim (Bool-cases (ltb n 10)) [
  | inl small ↦ (digit (n % 10), d ∷ out, rw small)
  | inr large ↦ rw large (show_onto-cons fuel (n / 10) (digit (n % 10)) (d ∷ out))
]

pub show_nat-digits : (n : ℕ) → AllDigits (show_nat n)
unfolding show_nat
show_nat-digits n = show_onto-digits (suc n) n "" tt

show_nat-cons : (n : ℕ) → (c : Char) × (s : String) × (show_nat n ≡ c ∷ s)
unfolding show_nat
show_nat-cons n = elim (Bool-cases (ltb n 10)) [
  | inl small ↦ (digit (n % 10), "", rw small)
  | inr large ↦ rw large (show_onto-cons n (n / 10) (digit (n % 10)) "")
]

skip_spaces_of_digit : (c : Char) (s : String) → is_digit c ≡ true → skip_spaces (c ∷ s) ≡ c ∷ s
unfolding skip_spaces is_space is_digit
skip_spaces_of_digit c s h = ground arith

parse_signed_of_digit :
    (c : Char) (s : String)
    → is_digit c ≡ true
    → parse_signed (c ∷ s) ≡ some (pos (digits_from 0 (c ∷ s)))
unfolding parse_signed is_digit parse_digits
parse_signed_of_digit c s h = ground arith

first_digit : {s t : String} {c : Char} → s ≡ c ∷ t → AllDigits s → is_digit c ≡ true
first_digit e h = (subst AllDigits e h).0

digits_from-show_nat : (n : ℕ) → digits_from 0 (show_nat n) ≡ n
unfolding show_nat digits_from
digits_from-show_nat n = digits_from-show_onto (suc n) n "" (omega arith)

parse_digits-show_nat : (n : ℕ) → parse_digits (show_nat n) ≡ some n
unfolding parse_digits
parse_digits-show_nat n =
    let (c, s, e) = show_nat-cons n in
    let first = first_digit e (show_nat-digits n) in
    rw (e, first) (ap some (ap (digits_from 0) (sym e) ∙ digits_from-show_nat n))

-- Reading the decimal text of an integer gives the integer back.
pub parse_int-show_int : (z : ℤ) → parse_int (show_int z) ≡ some z
unfolding parse_int show_int
parse_int-show_int (pos n) =
    let (c, s, e) = show_nat-cons n in
    let first = first_digit e (show_nat-digits n) in
    rw (e, skip_spaces_of_digit c s first, parse_signed_of_digit c s first)
      (ap (λ v. some (pos v)) (ap (digits_from 0) (sym e) ∙ digits_from-show_nat n))
parse_int-show_int (negsuc n) = rw (parse_digits-show_nat (suc n))
