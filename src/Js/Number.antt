-- ===== src/Js/Number.antt =====
-- `Number.parseInt(text, 10)` and the decimal text of an integer in a template literal. Numbers
-- past 2^53, where JavaScript rounds, are exact here.
pub mod RoundTrip
use Prim.Native.Char.{Char, code}
use Prim.Native.String.{[], ◌∷◌}
use nestjs_team_tasks_api.Prelude.{
  ℕ, zero, suc, ◌+◌, ◌-◌, ◌*◌, ◌/◌, ◌%◌, String, Bool, ◌&&◌, ◌||◌, Option, none, some, ltb, leb,
  nat_eqb, if◌then◌else◌,
}
use mathlib.Core.Option

-- `negsuc n` is -(n + 1).
pub data ℤ : Type 0 where
  pos : ℕ → ℤ
  negsuc : ℕ → ℤ

pub is_digit : Char → Bool
is_digit c = leb b'0' (code c) && leb (code c) b'9'

-- the digits up to the first other character, after those that gave `acc`
pub digits_from : ℕ → String → ℕ
digits_from acc [] = acc
digits_from acc (c ∷ s) =
    let rest = digits_from (acc * 10 + (code c - b'0')) s in if is_digit c then rest else acc

pub parse_digits : String → Option ℕ
parse_digits [] = none
parse_digits (c ∷ s) = if is_digit c then some (digits_from 0 (c ∷ s)) else none

-- the white space and line terminators of ECMAScript
unfoldable pub is_space : ℕ → Bool
is_space c =
    (leb 9 c && leb c 13)
    || nat_eqb c 0x20
    || nat_eqb c 0xa0
    || nat_eqb c 0x1680
    || (leb 0x2000 c && leb c 0x200a)
    || nat_eqb c 0x2028
    || nat_eqb c 0x2029
    || nat_eqb c 0x202f
    || nat_eqb c 0x205f
    || nat_eqb c 0x3000
    || nat_eqb c 0xfeff

unfoldable pub skip_spaces : String → String
skip_spaces [] = []
skip_spaces (c ∷ s) = let rest = skip_spaces s in if is_space (code c) then rest else c ∷ s

abbrev negate : ℕ → ℤ
negate zero = pos 0
negate (suc n) = negsuc n

parse_signed : String → Option ℤ
parse_signed [] = none
parse_signed (c ∷ s) =
    if nat_eqb (code c) b'-'
    then Option.map negate (parse_digits s)
    else if nat_eqb (code c) b'+'
    then Option.map pos (parse_digits s)
    else Option.map pos (parse_digits (c ∷ s))

-- `Number.parseInt(text, 10)`; `none` is `NaN`
unfoldable pub parse_int : String → Option ℤ
unfolding parse_signed skip_spaces is_space parse_digits digits_from is_digit
parse_int text = parse_signed (skip_spaces text)

pub digit : ℕ → Char
digit zero = "0"
digit (suc zero) = "1"
digit (suc (suc zero)) = "2"
digit (suc (suc (suc zero))) = "3"
digit (suc (suc (suc (suc zero)))) = "4"
digit (suc (suc (suc (suc (suc zero))))) = "5"
digit (suc (suc (suc (suc (suc (suc zero)))))) = "6"
digit (suc (suc (suc (suc (suc (suc (suc zero))))))) = "7"
digit (suc (suc (suc (suc (suc (suc (suc (suc zero)))))))) = "8"
digit _ = "9"

-- the decimal digits of `n`, in front of `out`; any fuel above `n` is enough
pub show_onto : ℕ → ℕ → String → String
show_onto zero n out = out
show_onto (suc fuel) n out =
    let more = show_onto fuel (n / 10) (digit (n % 10) ∷ out) in
    if ltb n 10 then digit (n % 10) ∷ out else more

unfoldable pub show_nat : ℕ → String
unfolding show_onto digit
show_nat n = show_onto (suc n) n ""

unfoldable pub show_int : ℤ → String
unfolding show_nat
show_int (pos n) = show_nat n
show_int (negsuc n) = "-" ∷ show_nat (suc n)
