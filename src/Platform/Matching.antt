-- ===== src/Platform/Matching.antt =====
-- What TypeORM documents of a `where`: which rows it selects. Used in hypotheses and statements;
-- the program does not compute it.
use nestjs_team_tasks_api.Prelude.{
  Bool, true, false, not, ◌&&◌, Option, none, some, StrictEquality, ◌==◌, ltb, has, string_eq,
  nat_eq,
}
use nestjs_team_tasks_api.Entities.{
  Organization, User, Project, Task, Date, role_eq, status_eq, priority_eq,
}
use nestjs_team_tasks_api.Platform.Types.{
  FindOperator, equal, is_null, one_of, less_than, negated, Criteria,
}

-- Whether a condition holds of a column. A comparison with an SQL `NULL` does not hold, negated or
-- not.
abbrev pub accepts :
    {A : Type 0} ⦃e : StrictEquality A⦄ → (A → A → Bool) → FindOperator A → Option A → Bool
accepts lt is_null none = true
accepts lt (equal v) none = false
accepts lt (one_of vs) none = false
accepts lt (less_than v) none = false
accepts lt (negated op) none = false
accepts lt is_null (some a) = false
accepts lt (equal v) (some a) = a == v
accepts lt (one_of vs) (some a) = has vs a
accepts lt (less_than v) (some a) = lt a v
accepts lt (negated op) (some a) = not (accepts lt op (some a))

-- a column without an order that the program uses
abbrev pub condition :
    {A : Type 0} ⦃e : StrictEquality A⦄ → Option (FindOperator A) → Option A → Bool
condition none column = true
condition (some op) column = accepts (λ _ _. false) op column

abbrev pub date_condition : Option (FindOperator Date) → Option Date → Bool
date_condition none column = true
date_condition (some op) column = accepts ltb op column

abbrev pub matches_organization : Criteria → Organization → Bool
matches_organization c r =
    condition c.id (some r.id)
    && condition c.name (some r.name)
    && date_condition c.deleted_at r.deleted_at

abbrev pub matches_user : Criteria → User → Bool
matches_user c r =
    condition c.id (some r.id)
    && condition c.email (some r.email)
    && condition c.role (some r.role)
    && condition c.organization_id (some r.organization_id)
    && date_condition c.deleted_at r.deleted_at

abbrev pub matches_project : Criteria → Project → Bool
matches_project c r =
    condition c.id (some r.id)
    && condition c.name (some r.name)
    && condition c.organization_id (some r.organization_id)
    && date_condition c.deleted_at r.deleted_at

abbrev pub matches_task : Criteria → Task → Bool
matches_task c r =
    condition c.id (some r.id)
    && condition c.organization_id (some r.organization_id)
    && condition c.assignee_id (some r.assignee_id)
    && condition c.status (some r.status)
    && condition c.priority (some r.priority)
    && date_condition c.due_date (some r.due_date)
    && date_condition c.deleted_at r.deleted_at
