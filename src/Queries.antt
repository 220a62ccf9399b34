-- ===== src/Queries.antt =====
-- The queries and handlers that several services write in the same words.
pub mod Laws
use nestjs_team_tasks_api.Prelude.{ℕ, ◌+◌, ◌-◌, ◌/◌, String, some, ◌==◌, string_eq, if◌then◌else◌}
use nestjs_team_tasks_api.Exec.{Exec, Failure, conflict, query_failed, fail}
use nestjs_team_tasks_api.Platform.{Criteria, equal, is_null, any_row}

-- `where: { id, organizationId, deletedAt: IsNull() }`
abbrev pub live_in_org : String → String → Criteria
live_in_org id organization_id = record any_row {
  id = some (equal id);
  organization_id = some (equal organization_id);
  deleted_at = some is_null;
}

-- `{ id, organizationId }`, the condition of each `softDelete`
abbrev pub in_org : String → String → Criteria
in_org id organization_id = record any_row {
  id = some (equal id);
  organization_id = some (equal organization_id);
}

-- PostgreSQL's code for a violation of a unique index
abbrev pub unique_violation : String
unique_violation = "23505"

-- The `catch` that turns a unique violation into a `ConflictException`, and throws the rest again.
unfoldable pub as_conflict : {W A : Type 0} → String → Failure → Exec W A
as_conflict message (query_failed code) w =
    if code == unique_violation then fail (conflict message) w else fail (query_failed code) w
as_conflict message e w = fail e w

-- `Math.ceil(total / n)`, for a page size of at least one
abbrev pub ceil_div : ℕ → ℕ → ℕ
ceil_div total n = (total + (n - 1)) / n
