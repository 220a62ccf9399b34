-- ===== src/Tasks/Policy/Laws.antt =====
-- What the task policy (src/modules/tasks/tasks.policy.ts) allows, as tables over the role.
use nestjs_team_tasks_api.Prelude.{
  String, ◌≡◌, ◌≢◌, ◌↔◌, ◌⊎◌, true, false, arith, eq_iff, if◌then◌else◌,
}
use nestjs_team_tasks_api.Js.{Field, value, coalesce, is_defined, assign_defined}
use nestjs_team_tasks_api.Entities.{employee, overdue, Task, AccessTokenPayload, role_beq}
use nestjs_team_tasks_api.Exec.{ok, throw, forbidden}
use nestjs_team_tasks_api.Tasks.Dto.{CreateTaskDto, UpdateTaskDto}
use nestjs_team_tasks_api.Tasks.Policy.{
  assert_can_read_task, assert_can_delete_task, normalize_create_task_input,
  NormalizedCreateTaskInput, assert_can_update_task, is_allowed_to_read_any_task_in_org,
  names_another,
}

-- the property names nobody, or the actor
abbrev pub NamesOnly : String → Field String → Type 0
NamesOnly sub (value s) = (s ≡ "") ⊎ (s ≡ sub)
NamesOnly sub _ = Unit

-- An actor may read a task exactly if the actor is not an employee or the task is assigned to the
-- actor, and may delete it under the same condition; a refusal of either is the exception
-- `forbidden "Insufficient permissions"`; and the roles that read every task of the organization are
-- all but the employee.
pub read_iff :
    (actor : AccessTokenPayload) (task : Task)
    → ((assert_can_read_task actor task ≡ ok tt)
        ↔ ((actor.role ≢ employee) ⊎ (task.assignee_id ≡ actor.sub)))
      × ((assert_can_read_task actor task ≡ ok tt)
          ⊎ (assert_can_read_task actor task ≡ throw (forbidden "Insufficient permissions")))
      × ((assert_can_delete_task actor task ≡ ok tt)
          ↔ ((actor.role ≢ employee) ⊎ (task.assignee_id ≡ actor.sub)))
      × ((assert_can_delete_task actor task ≡ ok tt)
          ⊎ (assert_can_delete_task actor task ≡ throw (forbidden "Insufficient permissions")))
      × ((is_allowed_to_read_any_task_in_org actor.role ≡ true) ↔ (actor.role ≢ employee))
unfolding assert_can_read_task is_allowed_to_read_any_task_in_org assert_can_delete_task
read_iff actor task = ground (arith, eq_iff task.assignee_id actor.sub)

-- what a create request must satisfy
pub record MayCreate (actor : AccessTokenPayload) (dto : CreateTaskDto) : Type 0 where
  pub status_is_client's : dto.status ≢ value overdue
  pub assigns_self : actor.role ≡ employee → NamesOnly actor.sub dto.assignee_id
  pub no_priority : actor.role ≡ employee → is_defined dto.priority ≡ false

abbrev pub normalized : AccessTokenPayload → CreateTaskDto → NormalizedCreateTaskInput
normalized actor dto = record {
  assignee_id =
      if role_beq actor.role employee then actor.sub else coalesce dto.assignee_id actor.sub;
  priority = assign_defined dto.priority;
  status = assign_defined dto.status;
}

names_another_lem :
    (f : Field String) (sub : String) → (names_another f sub ≡ false) ↔ NamesOnly sub f
unfolding names_another
names_another_lem (value s) sub = ground (arith, eq_iff s "", eq_iff s sub)
names_another_lem _ sub = ground arith

-- Creating is allowed exactly for the requests in `MayCreate`: the status is not `overdue`, and an
-- employee names no other assignee and no priority. An allowed request is normalized to
-- `normalized`: an employee is the assignee, anybody else gets the assignee of the request or
-- themselves, and status and priority are set only if the request defines them. A refused one
-- throws `forbidden "Insufficient permissions"`.
pub normalize_cases :
    (actor : AccessTokenPayload) (dto : CreateTaskDto)
    → (MayCreate actor dto × (normalize_create_task_input actor dto ≡ ok (normalized actor dto)))
      ⊎ ((¬ MayCreate actor dto)
          × (normalize_create_task_input actor dto ≡ throw (forbidden "Insufficient permissions")))
unfolding normalize_create_task_input
normalize_cases actor dto = ground (arith, names_another_lem dto.assignee_id actor.sub)

-- Updating is allowed exactly if reading is, the new status is not `overdue`, and an employee
-- defines neither assignee nor priority, not even as `null`; a refusal is the exception
-- `forbidden "Insufficient permissions"`.
pub update_iff :
    (actor : AccessTokenPayload) (task : Task) (dto : UpdateTaskDto)
    → ((assert_can_update_task actor task dto ≡ ok tt) ↔ (
        (assert_can_read_task actor task ≡ ok tt)
        × (dto.status ≢ value overdue)
        × (actor.role ≡ employee
            → (is_defined dto.assignee_id ≡ false) × (is_defined dto.priority ≡ false))))
      × ((assert_can_update_task actor task dto ≡ ok tt)
          ⊎ (assert_can_update_task actor task dto ≡ throw (forbidden "Insufficient permissions")))
unfolding assert_can_update_task
update_iff actor task dto = ground (arith, eq_iff task.assignee_id actor.sub)
