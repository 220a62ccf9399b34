-- ===== src/Tasks/Policy.antt =====
-- src/modules/tasks/tasks.policy.ts: who may read, create, update and delete a task.
pub mod Laws
use nestjs_team_tasks_api.Prelude.{
  String, Bool, true, false, not, ◌&&◌, Option, none, some, List, [], ◌∷◌, has, ◌==◌, string_eq,
  if◌then◌else◌,
}
use nestjs_team_tasks_api.Js.{
  Field, absent, undefined, null, value, is_defined, coalesce, assign_defined, equals, truthy,
}
use nestjs_team_tasks_api.Entities.{
  UserRole, owner, manager, employee, TaskStatus, overdue, TaskPriority, Task, AccessTokenPayload,
  role_eq, status_eq,
}
use nestjs_team_tasks_api.Exec.{Result, ok, throw, Failure, forbidden}
use nestjs_team_tasks_api.Tasks.Dto.{CreateTaskDto, UpdateTaskDto}

abbrev roles_that_read_only_own_tasks : List UserRole
roles_that_read_only_own_tasks = employee ∷ []

abbrev can_assign_task_to_others : List UserRole
can_assign_task_to_others = owner ∷ manager ∷ []

abbrev can_set_priority_on_create : List UserRole
can_set_priority_on_create = owner ∷ manager ∷ []

abbrev can_change_assignee_on_update : List UserRole
can_change_assignee_on_update = owner ∷ manager ∷ []

abbrev can_change_priority_on_update : List UserRole
can_change_priority_on_update = owner ∷ manager ∷ []

unfoldable pub is_allowed_to_read_any_task_in_org : UserRole → Bool
is_allowed_to_read_any_task_in_org role = not (has roles_that_read_only_own_tasks role)

unfoldable pub is_allowed_to_assign_task_to_others : UserRole → Bool
is_allowed_to_assign_task_to_others role = has can_assign_task_to_others role

unfoldable pub is_allowed_to_set_priority_on_create : UserRole → Bool
is_allowed_to_set_priority_on_create role = has can_set_priority_on_create role

unfoldable pub is_allowed_to_change_assignee_on_update : UserRole → Bool
is_allowed_to_change_assignee_on_update role = has can_change_assignee_on_update role

unfoldable pub is_allowed_to_change_priority_on_update : UserRole → Bool
is_allowed_to_change_priority_on_update role = has can_change_priority_on_update role

abbrev pub insufficient_permissions : Failure
insufficient_permissions = forbidden "Insufficient permissions"

unfoldable pub assert_can_read_task : AccessTokenPayload → Task → Result (Unit {0})
assert_can_read_task actor task =
    if has roles_that_read_only_own_tasks actor.role && not (task.assignee_id == actor.sub)
    then throw insufficient_permissions
    else ok tt

unfoldable pub assert_can_delete_task : AccessTokenPayload → Task → Result (Unit {0})
unfolding assert_can_read_task
assert_can_delete_task actor task = assert_can_read_task actor task

pub record NormalizedCreateTaskInput : Type 0 where
  pub assignee_id : String
  pub priority : Field TaskPriority
  pub status : Field TaskStatus

-- `dto.assigneeId && dto.assigneeId !== actor.sub`
pub names_another : Field String → String → Bool
names_another (value s) sub = truthy s && not (s == sub)
names_another _ sub = false

unfoldable pub normalize_create_task_input :
    AccessTokenPayload → CreateTaskDto → Result NormalizedCreateTaskInput
unfolding is_allowed_to_assign_task_to_others is_allowed_to_set_priority_on_create
normalize_create_task_input actor dto =
    if equals dto.status overdue
    then throw insufficient_permissions
    else if not (is_allowed_to_assign_task_to_others actor.role)
        && names_another dto.assignee_id actor.sub
    then throw insufficient_permissions
    else if not (is_allowed_to_set_priority_on_create actor.role) && is_defined dto.priority
    then throw insufficient_permissions
    else ok (record {
      assignee_id =
          if is_allowed_to_assign_task_to_others actor.role
          then coalesce dto.assignee_id actor.sub
          else actor.sub;
      priority = assign_defined dto.priority;
      status = assign_defined dto.status;
    })

abbrev checks_of_update : AccessTokenPayload → UpdateTaskDto → Result (Unit {0})
checks_of_update actor dto =
    if equals dto.status overdue
    then throw insufficient_permissions
    else if not (is_allowed_to_change_assignee_on_update actor.role) && is_defined dto.assignee_id
    then throw insufficient_permissions
    else if not (is_allowed_to_change_priority_on_update actor.role) && is_defined dto.priority
    then throw insufficient_permissions
    else ok tt

abbrev then_check : Result (Unit {0}) → Result (Unit {0}) → Result (Unit {0})
then_check (ok _) next = next
then_check (throw e) next = throw e

unfoldable pub assert_can_update_task :
    AccessTokenPayload → Task → UpdateTaskDto → Result (Unit {0})
unfolding assert_can_read_task is_allowed_to_change_assignee_on_update
    is_allowed_to_change_priority_on_update
assert_can_update_task actor task dto =
    then_check (assert_can_read_task actor task) (checks_of_update actor dto)
