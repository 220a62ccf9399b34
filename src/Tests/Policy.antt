-- ===== src/Tests/Policy.antt =====
-- The theorems on the policies at concrete inputs.
use nestjs_team_tasks_api.Prelude.{◌≡◌, ◌≢◌, ◌⊎◌, ◌↔◌, true, false, ltb}
use nestjs_team_tasks_api.Js.{absent, value, is_defined}
use nestjs_team_tasks_api.Entities.{owner, manager, employee, todo, done, overdue}
use nestjs_team_tasks_api.Exec.{ok, throw, forbidden}
use nestjs_team_tasks_api.Tasks.Dto.{CreateTaskDto, UpdateTaskDto}
use nestjs_team_tasks_api.Tasks.Policy.{
  assert_can_read_task, assert_can_update_task, assert_can_delete_task,
  is_allowed_to_read_any_task_in_org, normalize_create_task_input,
}
use nestjs_team_tasks_api.Tasks.Policy.Laws.{
  MayCreate, normalized, normalize_cases, update_iff, read_iff,
}
use nestjs_team_tasks_api.Users.Policy.{is_allowed_to_create_user, is_allowed_to_delete_user}
use nestjs_team_tasks_api.Users.Laws.{rank, allowed_by_rank}
use nestjs_team_tasks_api.Tests.Data.{eve, ann_task, eve_task}

abbrev finish : UpdateTaskDto
finish = record {
  title = absent;
  description = absent;
  status = value done;
  priority = absent;
  assignee_id = absent;
  due_date = absent;
}

abbrev plan : CreateTaskDto
plan = record {
  title = "t";
  description = "d";
  status = value todo;
  priority = absent;
  assignee_id = value "eve";
  project_id = "p1";
  due_date = 30;
}

update_iff_example :
    ((assert_can_update_task eve eve_task finish ≡ ok tt) ↔ (
      (assert_can_read_task eve eve_task ≡ ok tt)
      × (finish.status ≢ value overdue)
      × (eve.role ≡ employee
          → (is_defined finish.assignee_id ≡ false) × (is_defined finish.priority ≡ false))))
    × ((assert_can_update_task eve eve_task finish ≡ ok tt)
        ⊎ (assert_can_update_task eve eve_task finish
            ≡ throw (forbidden "Insufficient permissions")))
update_iff_example = update_iff eve eve_task finish

read_iff_example :
    ((assert_can_read_task eve ann_task ≡ ok tt)
      ↔ ((eve.role ≢ employee) ⊎ (ann_task.assignee_id ≡ eve.sub)))
    × ((assert_can_read_task eve ann_task ≡ ok tt)
        ⊎ (assert_can_read_task eve ann_task ≡ throw (forbidden "Insufficient permissions")))
    × ((assert_can_delete_task eve ann_task ≡ ok tt)
        ↔ ((eve.role ≢ employee) ⊎ (ann_task.assignee_id ≡ eve.sub)))
    × ((assert_can_delete_task eve ann_task ≡ ok tt)
        ⊎ (assert_can_delete_task eve ann_task ≡ throw (forbidden "Insufficient permissions")))
    × ((is_allowed_to_read_any_task_in_org eve.role ≡ true) ↔ (eve.role ≢ employee))
read_iff_example = read_iff eve ann_task

normalize_cases_example :
    (MayCreate eve plan × (normalize_create_task_input eve plan ≡ ok (normalized eve plan)))
    ⊎ ((¬ MayCreate eve plan)
        × (normalize_create_task_input eve plan ≡ throw (forbidden "Insufficient permissions")))
normalize_cases_example = normalize_cases eve plan

allowed_by_rank_example :
    (is_allowed_to_create_user owner manager ≡ ltb (rank manager) (rank owner))
    × (is_allowed_to_delete_user owner manager ≡ ltb (rank manager) (rank owner))
allowed_by_rank_example = allowed_by_rank owner manager
