-- ===== src/Js/Text.antt =====
-- Texts that are put together with a separating ":" fall apart in one way.
use Prim.Native.Char.{code}
use Prim.Native.String.{[], ◌∷◌, ◌++◌}
use text.Mathlib.TextLemmas.{
  nil-append, cons-append, head-eq_of_cons-eq, tail-eq_of_cons-eq, cons-eq-cons,
}
use mathlib.Core.Path.{ap₂}
use nestjs_team_tasks_api.Prelude.{String, ◌≡◌, ◌≢◌, refl, ap, sym, ◌∙◌, suc, arith}
use nestjs_team_tasks_api.Js.Number.{show_nat, show_int, ℤ, pos, negsuc}
use nestjs_team_tasks_api.Js.Number.RoundTrip.{AllDigits, show_nat-digits, digit-ne-colon}

-- no character of the text is a colon
abbrev pub NoColon : String → Type 0
NoColon [] = Unit
NoColon (c ∷ s) = (code c ≢ b':') × NoColon s

colon-append : (s : String) → ":" ++ s ≡ ":" ∷ s
colon-append s = cons-append ":" "" s ∙ ap (λ r. ":" ∷ r) (nil-append s)

pub split_colon :
    (a b s t : String)
    → NoColon a
    → NoColon b
    → a ++ (":" ++ s) ≡ b ++ (":" ++ t)
    → (a ≡ b) × (s ≡ t)
split_colon [] [] s t ha hb e =
    (refl, tail-eq_of_cons-eq (rw (nil-append, nil-append, colon-append, colon-append) at e))
split_colon [] (c ∷ b) s t ha hb e = absurd (
    hb.0 (sym (ap code (head-eq_of_cons-eq (rw (nil-append, colon-append s, cons-append c) at e)))))
split_colon (c ∷ a) [] s t ha hb e =
    absurd (ha.0 (ap code (head-eq_of_cons-eq (rw (nil-append, cons-append, colon-append t) at e))))
split_colon (c ∷ a) (d ∷ b) s t ha hb e =
    let e' = (cons-eq-cons.0 (simp cons-append at e)) in
    let (same, rest) = split_colon a b s t ha.1 hb.1 e'.1 in (ap₂ (λ x y. x ∷ y) e'.0 same, rest)

AllDigits-NoColon : (s : String) → AllDigits s → NoColon s
AllDigits-NoColon [] h = tt
AllDigits-NoColon (c ∷ s) (d, h) = (digit-ne-colon c d, AllDigits-NoColon s h)

pub show_int-NoColon : (z : ℤ) → NoColon (show_int z)
unfolding show_int
show_int-NoColon (pos n) = AllDigits-NoColon (show_nat n) (show_nat-digits n)
show_int-NoColon (negsuc n) =
    (omega arith, AllDigits-NoColon (show_nat (suc n)) (show_nat-digits (suc n)))
