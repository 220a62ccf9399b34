-- ===== src/Js/Double.antt =====
-- The numbers of JavaScript that are not integers: what the reports compute with an IEEE 754 double.
-- The arithmetic is a parameter; `IsOrdered` states what theorems need of it on the values that
-- occur, which are finite.
use nestjs_team_tasks_api.Prelude.{ℕ, zero, suc, Bool, List, [], ◌∷◌}

pub record Double (D : Type 0) : Type 0 where
  pub of_nat : ℕ → D
  pub plus : D → D → D
  pub minus : D → D → D
  pub times : D → D → D
  pub divided_by : D → D → D
  pub at_most : D → D → Bool
  -- the number that `undefined` is converted to
  pub nan : D

module _ {D : Type 0} ⦃d : Double D⦄ where
  -- `xs.reduce((acc, x) => acc + x, acc)`
  abbrev pub sum_from : D → List D → D
  sum_from acc [] = acc
  sum_from acc (x ∷ xs) = sum_from (d.plus acc x) xs

  -- `(a, b) => a - b` as a comparator of `Array.prototype.sort`: whether `a` may stand before `b`
  abbrev pub ascending : D → D → Bool
  ascending a b = d.at_most (d.minus a b) (d.of_nat 0)

  abbrev pub at : List D → ℕ → D
  at [] n = d.nan
  at (x ∷ xs) zero = x
  at (x ∷ xs) (suc n) = at xs n
