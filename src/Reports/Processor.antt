-- ===== src/Reports/Processor.antt =====
-- src/modules/reports/processors/tasks-report-processor.ts and reports-events.service.ts: the job that
-- counts the tasks and tells the client. The sockets are a state with an operation `emit`, and the
-- clock is an argument. The wait that only shows the queue at work is left out.
use nestjs_team_tasks_api.Prelude.{
  ℕ, String, not, List, [], ◌∷◌, ◌++◌, Option, none, some, length, keep, ◌==◌, string_eq,
}
use nestjs_team_tasks_api.Js.{Field, null, value, truthy_field}
use nestjs_team_tasks_api.Js.Double.{Double}
use nestjs_team_tasks_api.Entities.{UserRole, owner, manager, employee, AccessTokenPayload}
use nestjs_team_tasks_api.Exec.{
  Exec, Failure, Result, ok, throw, conflict, forbidden, not_found, unauthorized,
  service_unavailable, query_failed, other_error, pure, fail, lift, try_catch, zoom, ◌>>=◌, ◌>>◌,
}
use nestjs_team_tasks_api.Platform.{Platform, World, Criteria, equal, one_of, any_row}
use nestjs_team_tasks_api.Users.Service.{UserResponseDto}
use nestjs_team_tasks_api.Users.Service as Users
use nestjs_team_tasks_api.Tasks.Service as Tasks
use nestjs_team_tasks_api.Reports.Service.{TasksReportJobPayload}
use nestjs_team_tasks_api.Reports.Report.{TasksReportDto, Tally, no_tasks, count_tasks, report_of}

-- a BullMQ job
pub record Job : Type 0 where
  pub id : Field String
  pub payload : TasksReportJobPayload

pub record TaskReportDonePayload (D : Type 0) : Type 0 where
  pub job_id : String
  pub report : TasksReportDto D

pub record TaskReportFailedPayload : Type 0 where
  pub job_id : String
  pub error : String

pub data ReportEvent (D : Type 0) : Type 0 where
  task_report_done : TaskReportDonePayload D → ReportEvent D
  task_report_failed : TaskReportFailedPayload → ReportEvent D

-- `String(job.id)`
abbrev pub string_of : Field String → String
string_of (value s) = s
string_of null = "null"
string_of _ = "undefined"

-- `[...new Set(xs)]`
abbrev pub unique : List String → List String
unique [] = []
unique (x ∷ xs) = x ∷ keep (λ y. not (y == x)) (unique xs)

abbrev pub push_id : Field String → List String → List String
push_id (value id) ids = id ∷ ids
push_id _ ids = ids

-- `users.map((user) => user.id)`; a user that was loaded has an id
abbrev pub ids_of : List UserResponseDto → List String
ids_of [] = []
ids_of (user ∷ users) = push_id user.id (ids_of users)

abbrev pub actor_of : TasksReportJobPayload → AccessTokenPayload
actor_of job = record {
  sub = job.requested_by_user_id;
  organization_id = job.organization_id;
  role = job.requested_by_role;
}

-- `{ role }`
abbrev pub of_role : UserRole → Criteria
of_role role = record any_row { role = some (equal role) }

-- `{ assigneeId: In(ids) }`
abbrev pub assigned_to : List String → Criteria
assigned_to ids = record any_row { assignee_id = some (one_of ids) }

module _ (p : Platform) where
  abbrev Action : Type 0 → Type 0
  Action A = Exec (World p.Db p.Redis) A

  -- `getAssigneeIds` without a target
  unfoldable pub team_ids : UserRole → TasksReportJobPayload → Action (List String)
  team_ids employee job = pure (job.requested_by_user_id ∷ [])
  team_ids manager job = do
    employees ← Users.find_all p (of_role employee) (actor_of job)
    pure (unique (job.requested_by_user_id ∷ ids_of employees))
  team_ids owner job = do
    employees ← Users.find_all p (of_role employee) (actor_of job)
    managers ← Users.find_all p (of_role manager) (actor_of job)
    pure (unique (job.requested_by_user_id ∷ ids_of managers ++ ids_of employees))

  abbrev pub target_or_team : Option String → TasksReportJobPayload → Action (List String)
  target_or_team (some target_user_id) job = pure (target_user_id ∷ [])
  target_or_team none job = team_ids job.requested_by_role job

  unfoldable pub get_assignee_ids : TasksReportJobPayload → Action (List String)
  unfolding team_ids
  get_assignee_ids job = target_or_team (truthy_field job.target_user_id) job

  module _ {D : Type 0} ⦃d : Double D⦄ where
    abbrev pub after_count : Result (Unit {0}) × Tally D → ℕ → Result (TasksReportDto D)
    after_count (ok tt, t) total = ok (report_of total t)
    after_count (throw e, t) total = throw e

    -- the part of `process` that makes the report
    unfoldable pub make_report : ℕ → TasksReportJobPayload → Action (TasksReportDto D)
    unfolding get_assignee_ids
    make_report now job = do
      assignee_ids ← get_assignee_ids job
      tasks ← Tasks.find_all p (assigned_to assignee_ids) (actor_of job)
      lift (after_count (count_tasks now tasks no_tasks) (length tasks))

-- `error.message`; that of a failed query is the driver's
abbrev pub message_of : (String → String) → Failure → String
message_of driver (conflict message) = message
message_of driver (forbidden message) = message
message_of driver (not_found message) = message
message_of driver (unauthorized message) = message
message_of driver (service_unavailable message) = message
message_of driver (query_failed code) = driver code
message_of driver (other_error message) = message

-- the world, and the sockets of the clients
pub record Desk (W S : Type 0) : Type 0 where
  pub world : W
  pub sockets : S

module _ {W S A : Type 0} where
  abbrev pub in_world : Exec W A → Exec (Desk W S) A
  in_world = zoom (λ desk. desk.world) (λ w desk. record desk { world = w })

  abbrev pub on_sockets : Exec S A → Exec (Desk W S) A
  on_sockets = zoom (λ desk. desk.sockets) (λ s desk. record desk { sockets = s })

module _ (p : Platform) {D S : Type 0} ⦃d : Double D⦄ (driver : String → String)
    (emit : String → String → ReportEvent D → Exec S (Unit {0})) where
  abbrev Work : Type 0 → Type 0
  Work A = Exec (Desk (World p.Db p.Redis) S) A

  abbrev pub emit_task_report_done : String → TaskReportDonePayload D → Exec S (Unit {0})
  emit_task_report_done user_id payload =
      emit user_id "tasks-report:done" (task_report_done payload)

  abbrev pub emit_task_report_failed : String → TaskReportFailedPayload → Exec S (Unit {0})
  emit_task_report_failed user_id payload =
      emit user_id "tasks-report:failed" (task_report_failed payload)

  -- the `try` of `process`
  unfoldable pub deliver : ℕ → Job → Work (TasksReportDto D)
  deliver now job = do
    report ← in_world (make_report p now job.payload)
    on_sockets (
        emit_task_report_done job.payload.requested_by_user_id
          (record { job_id = string_of job.id; report = report }))
    pure report

  -- the `catch` of `process`
  unfoldable pub report_failure : Job → Failure → Work (TasksReportDto D)
  report_failure job error = do
    on_sockets (
        emit_task_report_failed job.payload.requested_by_user_id
          (record { job_id = string_of job.id; error = message_of driver error }))
    fail error

  unfoldable pub process : ℕ → Job → Work (TasksReportDto D)
  unfolding deliver report_failure
  process now job = try_catch (deliver now job) (report_failure job)
