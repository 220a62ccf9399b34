-- ===== src/Queries/Laws.antt =====
-- What the shared queries select, and what the shared handler does.
use native.Mathlib.Nat.{div-add-mod', mod-lt, zero-lt-suc}
use nestjs_team_tasks_api.Prelude.{
  ℕ, zero, suc, ◌+◌, ◌-◌, ◌*◌, ◌≤◌, ◌<◌, String, none, true, ◌≡◌, ◌⊎◌, inl, inr, refl, arith,
  eq_iff, string_eq,
}
use nestjs_team_tasks_api.Entities.{User, Project, Task}
use nestjs_team_tasks_api.Exec.{Failure, Result, ok, throw, recover, query_failed}
use nestjs_team_tasks_api.Platform.{matches_task, matches_user, matches_project}
use nestjs_team_tasks_api.Queries.{ceil_div, live_in_org, as_conflict}

pub matches-live_in_org :
    (id org : String) (t : Task)
    → matches_task (live_in_org id org) t ≡ true
    → (t.id ≡ id) × (t.organization_id ≡ org) × (t.deleted_at ≡ none)
matches-live_in_org id org t h = ground (arith, eq_iff t.id id, eq_iff t.organization_id org)

pub user-live_in_org :
    (id org : String) (t : User)
    → matches_user (live_in_org id org) t ≡ true
    → (t.id ≡ id) × (t.organization_id ≡ org) × (t.deleted_at ≡ none)
user-live_in_org id org t h = ground (arith, eq_iff t.id id, eq_iff t.organization_id org)

pub project-live_in_org :
    (id org : String) (t : Project)
    → matches_project (live_in_org id org) t ≡ true
    → (t.id ≡ id) × (t.organization_id ≡ org) × (t.deleted_at ≡ none)
project-live_in_org id org t h = ground (arith, eq_iff t.id id, eq_iff t.organization_id org)

-- the handler writes nothing
handled :
    (A : Type 0) {W : Type 0} (message : String) (e : Failure) (w : W)
    → (as_conflict {A = A} message e w).1 ≡ w
unfolding as_conflict
handled A message (query_failed code) w = ground arith
handled A message _ w = refl

pub recover-as_conflict :
    {A W : Type 0} (message : String) (x : Result A × W) → (recover x (as_conflict message)).1 ≡ x.1
recover-as_conflict {A} message (ok a, w) = refl
recover-as_conflict {A} message (throw e, w) = handled A message e w

-- the number of pages that hold `total` items, and no page more
pub ceil_div-least :
    (total n : ℕ) → (n ≡ 0) ⊎ ((total ≤ ceil_div total n * n) × (ceil_div total n * n < total + n))
ceil_div-least total zero = inl refl
ceil_div-least total (suc k) =
    let split = div-add-mod' (total + (suc k - 1)) (suc k) in
    let rest = mod-lt (total + (suc k - 1)) (zero-lt-suc k) in
    inr (omega (arith, split, rest), omega (arith, split, rest))
