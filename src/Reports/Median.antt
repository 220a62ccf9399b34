-- ===== src/Reports/Median.antt =====
-- The median of a report is the median of its times, in the usual sense.
use mathlib.Core.List.{Permᴰ}
use nestjs_team_tasks_api.Prelude.{
  ℕ, zero, suc, ◌+◌, ◌-◌, ◌/◌, ◌%◌, ◌<◌, true, List, [], ◌∷◌, ◌++◌, ◌≡◌, refl, sym, ap, ◌∙◌, inl,
  inr, arith, length, length-Permᴰ, nat_eqb, Bool-cases, if◌then◌else◌,
}
use nestjs_team_tasks_api.Js.Double.{Double, ascending, at}
use nestjs_team_tasks_api.Js.Sort.{sort}
use nestjs_team_tasks_api.Js.Sort.Laws.{
  IsOrder, Above, Below, IsSorted, Around, around, sort-IsSorted, sort-Permᴰ,
}
use nestjs_team_tasks_api.Reports.Report.{calculate_median}

module _ {D : Type 0} ⦃d : Double D⦄ where
  -- `m` is the median of `times`: the item in the middle of them, or half the sum of the two items in
  -- the middle.
  pub data IsMedian (times : List D) (m : D) : Type 0 where
    of_none : times ≡ [] → m ≡ d.of_nat 0 → IsMedian times m
    of_odd :
        (lower upper : List D)
        → Permᴰ (lower ++ m ∷ upper) times
        → length lower ≡ length upper
        → Above ascending m lower
        → Below ascending m upper
        → IsMedian times m
    of_even :
        (lower upper : List D) (a b : D)
        → Permᴰ (lower ++ a ∷ b ∷ upper) times
        → length lower ≡ length upper
        → Above ascending a lower
        → ascending a b ≡ true
        → Below ascending b upper
        → m ≡ d.divided_by (d.plus a b) (d.of_nat 2)
        → IsMedian times m

  length-parts :
      (lower upper : List D) (m : D)
      → length (lower ++ m ∷ upper) ≡ suc (length lower + length upper)
  length-parts [] upper m = omega arith
  length-parts (l ∷ lower) upper m = omega (arith, length-parts lower upper m)

  at-parts :
      (lower upper : List D) (m : D) (k : ℕ) → length lower ≡ k → at (lower ++ m ∷ upper) k ≡ m
  at-parts [] upper m zero e = refl
  at-parts [] upper m (suc k) e = absurd (omega (arith, e))
  at-parts (l ∷ lower) upper m zero e = absurd (omega (arith, e))
  at-parts (l ∷ lower) upper m (suc k) e = at-parts lower upper m k (omega (arith, e))

  at-next :
      (lower upper : List D) (a b : D) (k : ℕ)
      → length lower ≡ k
      → at (lower ++ a ∷ b ∷ upper) (suc k) ≡ b
  at-next [] upper a b zero e = refl
  at-next [] upper a b (suc k) e = absurd (omega (arith, e))
  at-next (l ∷ lower) upper a b zero e = absurd (omega (arith, e))
  at-next (l ∷ lower) upper a b (suc k) e = at-next lower upper a b k (omega (arith, e))

  empty : (xs : List D) → length xs ≡ 0 → xs ≡ []
  empty [] e = refl
  empty (x ∷ xs) e = absurd (omega (arith, e))

  -- the middle of a sorted list of odd length
  odd_middle :
      (times sorted : List D)
      → Permᴰ sorted times
      → length sorted % 2 ≡ 1
      → Around ascending sorted (length sorted / 2)
      → IsMedian times (at sorted (length sorted / 2))
  odd_middle times sorted perm odd r =
      let e : at sorted (length sorted / 2) ≡ r.here =
        ap (λ xs. at xs (length sorted / 2)) r.parts
        ∙ at-parts r.lower r.upper r.here (length sorted / 2) r.position in
      let sizes : length sorted ≡ suc (length r.lower + length r.upper) =
        ap length r.parts ∙ length-parts r.lower r.upper r.here in
      rw e (
        of_odd r.lower r.upper (rw (← r.parts) perm) (omega (arith, sizes, r.position, odd))
          r.lower_before r.upper_after)

  even_parts :
      (times sorted lower upper : List D) (a : D)
      → Permᴰ sorted times
      → length sorted % 2 ≡ 0
      → sorted ≡ lower ++ a ∷ upper
      → length lower ≡ length sorted / 2 - 1
      → 0 < length sorted
      → Above ascending a lower
      → Below ascending a upper
      → IsSorted ascending upper
      → IsMedian times (
          d.divided_by
            (d.plus (at sorted (length sorted / 2 - 1)) (at sorted (length sorted / 2)))
            (d.of_nat 2))
  even_parts times sorted lower [] a perm even parts position some_time above below s =
      let sizes : length sorted ≡ suc (length lower + 0) =
        ap length parts ∙ length-parts lower [] a in
      absurd (omega (arith, sizes, position, even))
  even_parts times sorted lower (b ∷ upper) a perm even parts position some_time above (ab, below)
        (rest, s) =
      let sizes : length sorted ≡ suc (length lower + suc (length upper)) =
        ap length parts ∙ length-parts lower (b ∷ upper) a in
      let left : at sorted (length sorted / 2 - 1) ≡ a =
        ap (λ xs. at xs (length sorted / 2 - 1)) parts
        ∙ at-parts lower (b ∷ upper) a (length sorted / 2 - 1) position in
      let next : length sorted / 2 ≡ suc (length lower) = omega (arith, sizes, position, even) in
      let right : at sorted (length sorted / 2) ≡ b =
        ap (at sorted) next
        ∙ ap (λ xs. at xs (suc (length lower))) parts
        ∙ at-next lower upper a b (length lower) refl in
      of_even lower upper a b (rw (← parts) perm) (omega (arith, sizes, position, even)) above ab
        rest
        (ap (λ l. d.divided_by (d.plus l (at sorted (length sorted / 2))) (d.of_nat 2)) left
          ∙ ap (λ r. d.divided_by (d.plus a r) (d.of_nat 2)) right)

  sorted-IsMedian :
      (times sorted : List D)
      → Permᴰ sorted times
      → IsSorted ascending sorted
      → IsMedian times (
          if nat_eqb (length sorted) 0
          then d.of_nat 0
          else if nat_eqb (length sorted % 2) 1
          then at sorted (length sorted / 2)
          else d.divided_by
              (d.plus (at sorted (length sorted / 2 - 1)) (at sorted (length sorted / 2)))
              (d.of_nat 2))
  sorted-IsMedian times sorted perm s = elim (Bool-cases (nat_eqb (length sorted) 0)) [
    | inl e ↦
        let none_sorted : length sorted ≡ 0 = ground (arith, e) in
        rw e (of_none (empty times (sym (length-Permᴰ perm) ∙ none_sorted)) refl)
    | inr e ↦ elim (Bool-cases (nat_eqb (length sorted % 2) 1)) [
      | inl o ↦
          rw (e, o)
            (odd_middle times sorted perm (ground (arith, o))
              (around ascending sorted (length sorted / 2) (ground (arith, e)) s))
      | inr o ↦
          let r = around ascending sorted (length sorted / 2 - 1) (ground (arith, e)) s in
          rw (e, o)
            (even_parts times sorted r.lower r.upper r.here perm (ground (arith, o)) r.parts
              r.position (ground (arith, e)) r.lower_before r.upper_after r.upper_sorted)
    ]
  ]

  -- Where the comparison of numbers by their difference is a consistent order, `calculateMedian` of
  -- any times returns their median, and 0 if there are none.
  pub calculate_median-IsMedian :
      IsOrder {A = D} ascending → (times : List D) → IsMedian times (calculate_median times)
  unfolding calculate_median
  calculate_median-IsMedian order times =
      sorted-IsMedian times (sort ascending times) (sort-Permᴰ ascending times)
        (sort-IsSorted ascending order times)
