-- ===== src/Js/Sort/Laws.antt =====
-- Sorting puts a list in ascending order and keeps its items.
use mathlib.Core.List.{Permᴰ}
use mathlib.Core.List.Permᴰ
use nestjs_team_tasks_api.Prelude.{
  ℕ, zero, suc, ◌<◌, Bool, true, List, [], ◌∷◌, ◌++◌, ◌≡◌, refl, ap, ◌⊎◌, inl, inr, arith, All,
  length, Bool-cases,
}
use nestjs_team_tasks_api.Js.Sort.{insert, sort}

module _ {A : Type 0} (before : A → A → Bool) where
  -- a comparator that is consistent, as the sort requires
  pub record IsOrder : Type 0 where
    pub total : (a b : A) → (before a b ≡ true) ⊎ (before b a ≡ true)
    pub transitive : (a b c : A) → before a b ≡ true → before b c ≡ true → before a c ≡ true

  abbrev pub Below : A → List A → Type 0
  Below a xs = All (λ x. before a x ≡ true) xs

  abbrev pub Above : A → List A → Type 0
  Above a xs = All (λ x. before x a ≡ true) xs

  abbrev pub IsSorted : List A → Type 0
  IsSorted [] = Unit {0}
  IsSorted (x ∷ xs) = Below x xs × IsSorted xs

  insert-Permᴰ : (a : A) (xs : List A) → Permᴰ (insert before a xs) (a ∷ xs)
  unfolding insert
  insert-Permᴰ a [] = Permᴰ.refl _
  insert-Permᴰ a (x ∷ xs) = elim (Bool-cases (before a x)) [
    | inl e ↦ rw e (Permᴰ.refl _)
    | inr e ↦ rw e (Permᴰ.trans (Permᴰ.cons refl (insert-Permᴰ a xs)) (Permᴰ.swap refl refl))
  ]

  pub sort-Permᴰ : (xs : List A) → Permᴰ (sort before xs) xs
  unfolding sort
  sort-Permᴰ [] = Permᴰ.nil
  sort-Permᴰ (x ∷ xs) =
      Permᴰ.trans (insert-Permᴰ x (sort before xs)) (Permᴰ.cons refl (sort-Permᴰ xs))

  Below-insert :
      (a b : A) (xs : List A) → before a b ≡ true → Below a xs → Below a (insert before b xs)
  unfolding insert
  Below-insert a b [] h all = (h, tt)
  Below-insert a b (x ∷ xs) h (k, all) = elim (Bool-cases (before b x)) [
    | inl e ↦ rw e (h, (k, all))
    | inr e ↦ rw e (k, Below-insert a b xs h all)
  ]

  module _ (order : IsOrder) where
    Below-trans : (a x : A) (xs : List A) → before a x ≡ true → Below x xs → Below a xs
    Below-trans a x [] h all = tt
    Below-trans a x (y ∷ ys) h (k, all) = (order.transitive a x y h k, Below-trans a x ys h all)

    insert-IsSorted : (a : A) (xs : List A) → IsSorted xs → IsSorted (insert before a xs)
    unfolding insert
    insert-IsSorted a [] s = (tt, tt)
    insert-IsSorted a (x ∷ xs) (below, s) = elim (Bool-cases (before a x)) [
      | inl e ↦ rw e (((e, Below-trans a x xs e below), (below, s)))
      | inr e ↦
          let back : before x a ≡ true = ground (arith, order.total a x, e) in
          rw e (Below-insert x a xs back below, insert-IsSorted a xs s)
    ]

    pub sort-IsSorted : (xs : List A) → IsSorted (sort before xs)
    unfolding sort
    sort-IsSorted [] = tt
    sort-IsSorted (x ∷ xs) = insert-IsSorted x (sort before xs) (sort-IsSorted xs)

  -- a sorted list around its item at position `k`
  pub record Around (xs : List A) (k : ℕ) : Type 0 where
    pub lower : List A
    pub here : A
    pub upper : List A
    pub parts : xs ≡ lower ++ here ∷ upper
    pub position : length lower ≡ k
    pub lower_before : Above here lower
    pub upper_after : Below here upper
    pub upper_sorted : IsSorted upper

  pub around : (xs : List A) (k : ℕ) → k < length xs → IsSorted xs → Around xs k
  around [] k h s = absurd (omega arith)
  around (x ∷ xs) zero h (below, s) = record {
    lower = [];
    here = x;
    upper = xs;
    parts = refl;
    position = refl;
    lower_before = tt;
    upper_after = below;
    upper_sorted = s;
  }
  around (x ∷ xs) (suc k) h (below, s) =
      let r = around xs k (omega arith) s in
      record {
        lower = x ∷ r.lower;
        here = r.here;
        upper = r.upper;
        parts = ap (◌∷◌ x) r.parts;
        position = ap suc r.position;
        lower_before = (first xs r.lower r.here r.upper r.parts below, r.lower_before);
        upper_after = r.upper_after;
        upper_sorted = r.upper_sorted;
      }
    where
      middle : (ls : List A) (m : A) (us : List A) → Below x (ls ++ m ∷ us) → before x m ≡ true
      middle [] m us (e, _) = e
      middle (l ∷ ls) m us (_, b) = middle ls m us b

      first :
          (ys ls : List A) (m : A) (us : List A)
          → ys ≡ ls ++ m ∷ us
          → Below x ys
          → before x m ≡ true
      first ys ls m us e b = middle ls m us (rw (← e) b)
