-- ===== src/Tasks/Cron.antt =====
-- src/modules/tasks/crons/task-overdue.cron.service.ts: the nightly job that marks overdue tasks.
pub mod Laws
use nestjs_team_tasks_api.Prelude.{some, [], ◌∷◌}
use nestjs_team_tasks_api.Js.{absent, value}
use nestjs_team_tasks_api.Entities.{Date, TaskObject, done, overdue}
use nestjs_team_tasks_api.Exec.{pure, ◌>>=◌, ◌>>◌}
use nestjs_team_tasks_api.Platform.{
  Platform, World, Criteria, is_null, one_of, less_than, negated, any_row, run,
}
use nestjs_team_tasks_api.Tasks.Service.{Action}

abbrev pub past_due : Date → Criteria
past_due now = record any_row {
  due_date = some (less_than now);
  status = some (negated (one_of (done ∷ overdue ∷ [])));
  deleted_at = some is_null;
}

abbrev pub marked : TaskObject
marked = record {
  id = absent;
  title = absent;
  description = absent;
  status = value overdue;
  priority = absent;
  organization_id = absent;
  assignee_id = absent;
  project_id = absent;
  due_date = absent;
  created_at = absent;
  updated_at = absent;
  deleted_at = absent;
}

-- the job at the time `now`; the count that it logs is left out
unfoldable pub handle_task_overdue : (p : Platform) → Date → Action p (Unit {0})
handle_task_overdue p now = do run (p.tasks.update (past_due now) marked); pure tt
