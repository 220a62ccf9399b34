-- ===== src/Js/Sort.antt =====
-- `Array.prototype.sort` with a comparator, which is a stable sort: `before a b` holds if the
-- comparator returns a number that is at most zero.
pub mod Laws
use nestjs_team_tasks_api.Prelude.{Bool, List, [], ◌∷◌, if◌then◌else◌}

module _ {A : Type 0} (before : A → A → Bool) where
  unfoldable pub insert : A → List A → List A
  insert a [] = a ∷ []
  insert a (x ∷ xs) = let rest = insert a xs in if before a x then a ∷ x ∷ xs else x ∷ rest

  unfoldable pub sort : List A → List A
  unfolding insert
  sort [] = []
  sort (x ∷ xs) = insert x (sort xs)
