-- ===== src/Exec/Cases.antt =====
-- The ways in which a query and a write end.
use nestjs_team_tasks_api.Prelude.{Option, none, some, ◌≡◌, refl, ◌⊎◌, inl, inr}
use nestjs_team_tasks_api.Exec.{Failure, Result, ok, throw}

pub found_cases :
    {A : Type 0} (r : Result (Option A))
    → ((a : A) × (r ≡ ok (some a))) ⊎ ((r ≡ ok none) ⊎ ((e : Failure) × (r ≡ throw e)))
found_cases (ok (some a)) = inl (a, refl)
found_cases (ok none) = inr (inl refl)
found_cases (throw e) = inr (inr (e, refl))

pub saved_cases :
    {A W : Type 0} (x : Result A × W)
    → ((a : A) × (w : W) × (x ≡ (ok a, w))) ⊎ ((e : Failure) × (w : W) × (x ≡ (throw e, w)))
saved_cases (ok a, w) = inl (a, w, refl)
saved_cases (throw e, w) = inr (e, w, refl)

pub result_cases :
    {A : Type 0} (r : Result A) → ((a : A) × (r ≡ ok a)) ⊎ ((e : Failure) × (r ≡ throw e))
result_cases (ok a) = inl (a, refl)
result_cases (throw e) = inr (e, refl)

pub option_cases : {A : Type 0} (o : Option A) → ((a : A) × (o ≡ some a)) ⊎ (o ≡ none)
option_cases none = inr refl
option_cases (some a) = inl (a, refl)
