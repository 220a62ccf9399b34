-- ===== src/Reports/Service.antt =====
-- src/modules/reports/reports.policy.ts, report.service.ts and reports.controller.ts: who may ask for
-- a report on whose tasks, and the job that is queued for it. BullMQ's queue is a parameter; it keeps
-- its jobs in Redis.
use nestjs_team_tasks_api.Prelude.{
  String, Bool, true, false, not, Option, none, some, List, [], ◌∷◌, has, ◌==◌, string_eq,
  if◌then◌else◌,
}
use nestjs_team_tasks_api.Js.{Field, absent, value, truthy_field}
use nestjs_team_tasks_api.Entities.{UserRole, owner, manager, employee, role_eq, AccessTokenPayload}
use nestjs_team_tasks_api.Exec.{Exec, Result, forbidden, pure, throw_if, ◌>>=◌, ◌>>◌}
use nestjs_team_tasks_api.Platform.{Platform, World, run_redis}
use nestjs_team_tasks_api.Guards.{authorized}
use nestjs_team_tasks_api.Users.Service.{get_by_id}

pub data ReportJobStatus : Type 0 where
  processing completed failed : ReportJobStatus

pub record CreateTaskReportDto : Type 0 where
  pub user_id : Field String

pub record TaskReportResponseDto : Type 0 where
  pub job_id : String
  pub status : ReportJobStatus

pub record TasksReportJobPayload : Type 0 where
  pub organization_id : String
  pub requested_by_user_id : String
  pub requested_by_role : UserRole
  pub target_user_id : Field String

abbrev pub allowed_create_task_report_roles : UserRole → List UserRole
allowed_create_task_report_roles owner = manager ∷ employee ∷ []
allowed_create_task_report_roles manager = employee ∷ []
allowed_create_task_report_roles employee = []

-- `Set.has` of a role that may be missing
abbrev pub has_role : List UserRole → Field UserRole → Bool
has_role allowed (value r) = has allowed r
has_role allowed _ = false

unfoldable pub can_request_task_report_for_target :
    UserRole → String → String → Field UserRole → Bool
can_request_task_report_for_target actor_role actor_id target_id target_role =
    if actor_id == target_id
    then true
    else has_role (allowed_create_task_report_roles actor_role) target_role

-- `...(targetUserId && { targetUserId })`
abbrev pub target_part : Option String → Field String
target_part none = absent
target_part (some id) = value id

abbrev pub payload_of : CreateTaskReportDto → AccessTokenPayload → TasksReportJobPayload
payload_of dto actor = record {
  organization_id = actor.organization_id;
  requested_by_user_id = actor.sub;
  requested_by_role = actor.role;
  target_user_id = target_part (truthy_field dto.user_id);
}

module _ (p : Platform)
    (add : String → TasksReportJobPayload → p.Redis → Result String × p.Redis) where
  abbrev Action : Type 0 → Type 0
  Action A = Exec (World p.Db p.Redis) A

  -- `if (targetUserId) { … }`
  unfoldable pub check_target : Option String → AccessTokenPayload → Action (Unit {0})
  check_target none actor = pure tt
  check_target (some target_user_id) actor = do
    target_user ← get_by_id p target_user_id actor
    throw_if
        (not
          (can_request_task_report_for_target actor.role actor.sub target_user_id target_user.role))
        (forbidden "Insufficient permissions")

  unfoldable pub create_task_report :
      CreateTaskReportDto → AccessTokenPayload → Action TaskReportResponseDto
  create_task_report dto actor = do
    check_target (truthy_field dto.user_id) actor
    job_id ← run_redis (add "tasks-report" (payload_of dto actor))
    pure (record { job_id = job_id; status = processing })

  -- `ReportsController.createTaskReport`, behind `@Auth()`
  unfoldable pub create_task_report_handler :
      CreateTaskReportDto → AccessTokenPayload → Action TaskReportResponseDto
  unfolding authorized create_task_report
  create_task_report_handler dto = authorized [] (create_task_report dto)
