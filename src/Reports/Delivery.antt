-- ===== src/Reports/Delivery.antt =====
-- How a job of the reports queue ends, and what its client is told.
use nestjs_team_tasks_api.Prelude.{ℕ, String, ◌≡◌, refl, ◌⊎◌, inl, inr, arith, Option, none, some}
use nestjs_team_tasks_api.Js.{Field, absent, undefined, null, value, truthy_field}
use nestjs_team_tasks_api.Js.Double.{Double}
use nestjs_team_tasks_api.Entities.{UserRole, owner, manager, employee}
use nestjs_team_tasks_api.Exec.{
  Exec, Failure, Result, ok, throw, conflict, forbidden, not_found, unauthorized,
  service_unavailable, query_failed, other_error,
}
use nestjs_team_tasks_api.Exec.Cases.{saved_cases}
use nestjs_team_tasks_api.Platform.{Platform, World, Criteria}
use nestjs_team_tasks_api.Users.Service as Users
use nestjs_team_tasks_api.Tasks.Service as Tasks
use nestjs_team_tasks_api.Reports.Service.{TasksReportJobPayload}
use nestjs_team_tasks_api.Reports.Report.{TasksReportDto}
use nestjs_team_tasks_api.Reports.Processor.{
  Job, ReportEvent, task_report_done, task_report_failed, Desk, actor_of, string_of, message_of,
  of_role, team_ids, target_or_team, get_assignee_ids, make_report, deliver, report_failure,
  process,
}

module _ (p : Platform) where
  open p use {users, tasks}

  users-reads :
      (c : Criteria) (job : TasksReportJobPayload) (w : World p.Db p.Redis)
      → (Users.find_all p c (actor_of job) w).1 ≡ w
  users-reads c job w = unfold Users.find_all in (ground arith)

  team-reads :
      (role : UserRole) (job : TasksReportJobPayload) (w : World p.Db p.Redis)
      → (team_ids p role job w).1 ≡ w
  unfolding team_ids
  team-reads employee job w = refl
  team-reads manager job w = ground (arith, users-reads (of_role employee) job w)
  team-reads owner job w =
      ground (arith, users-reads (of_role employee) job w, users-reads (of_role manager) job w)

  ids-reads :
      (target : Option String) (job : TasksReportJobPayload) (w : World p.Db p.Redis)
      → (target_or_team p target job w).1 ≡ w
  ids-reads (some target) job w = refl
  ids-reads none job w = team-reads job.requested_by_role job w

  reads-make_report :
      (D : Type 0) ⦃d : Double D⦄ (now : ℕ) (job : TasksReportJobPayload) (w : World p.Db p.Redis)
      → (make_report p {D = D} now job w).1 ≡ w
  unfolding make_report get_assignee_ids Tasks.find_all
  reads-make_report D now job w = ground (arith, ids-reads (truthy_field job.target_user_id) job w)

-- the text that names a job: its id, or what JavaScript writes for a missing one
abbrev pub Named : Field String → String → Type 0
Named (value id) text = text ≡ id
Named null text = text ≡ "null"
Named _ text = text ≡ "undefined"

-- the text of an error: the message that it was thrown with, or the driver's for a failed query
abbrev pub Says : (String → String) → Failure → String → Type 0
Says driver (query_failed code) text = text ≡ driver code
Says driver f text =
    (f ≡ conflict text)
    ⊎ ((f ≡ forbidden text)
        ⊎ ((f ≡ not_found text)
            ⊎ ((f ≡ unauthorized text)
                ⊎ ((f ≡ service_unavailable text) ⊎ (f ≡ other_error text)))))

string_of-Named : (id : Field String) → Named id (string_of id)
string_of-Named (value id) = refl
string_of-Named null = refl
string_of-Named absent = refl
string_of-Named undefined = refl

message_of-Says : (driver : String → String) (f : Failure) → Says driver f (message_of driver f)
message_of-Says driver (conflict text) = inl refl
message_of-Says driver (forbidden text) = inr (inl refl)
message_of-Says driver (not_found text) = inr (inr (inl refl))
message_of-Says driver (unauthorized text) = inr (inr (inr (inl refl)))
message_of-Says driver (service_unavailable text) = inr (inr (inr (inr (inl refl))))
message_of-Says driver (query_failed code) = refl
message_of-Says driver (other_error text) = inr (inr (inr (inr (inr refl))))

module _ (p : Platform) {D S : Type 0} ⦃d : Double D⦄ (driver : String → String)
    (emit : String → String → ReportEvent D → Exec S (Unit {0})) (now : ℕ) (job : Job)
    (desk : Desk (World p.Db p.Redis) S) where
  abbrev Ended : Type 0
  Ended = Result (TasksReportDto D) × Desk (World p.Db p.Redis) S

  abbrev pub made : Result (TasksReportDto D)
  made = (make_report p now job.payload desk.world).0

  -- the requester is sent the report, and the text of an error
  abbrev pub send_report : String → TasksReportDto D → Exec S (Unit {0})
  send_report id r =
      emit job.payload.requested_by_user_id "tasks-report:done"
        (task_report_done (record { job_id = id; report = r }))

  abbrev pub send_error : String → String → Exec S (Unit {0})
  send_error id text =
      emit job.payload.requested_by_user_id "tasks-report:failed"
        (task_report_failed (record { job_id = id; error = text }))

  -- the end of a job by an error `f`, the sockets being `s`
  abbrev pub EndsFailed : String → Failure → S → Type 0
  EndsFailed id f s =
      (text : String) × Says driver f text
      × ((process p driver emit now job desk).1
          ≡ record { world = desk.world; sockets = (send_error id text s).1 })
      × ((((send_error id text s).0 ≡ ok tt) × ((process p driver emit now job desk).0 ≡ throw f))
          ⊎ ((g : Failure) × ((send_error id text s).0 ≡ throw g)
              × ((process p driver emit now job desk).0 ≡ throw g)))

  same_world : (make_report p {D = D} now job.payload desk.world).1 ≡ desk.world
  same_world = reads-make_report p D now job.payload desk.world

  ends_failed :
      (f : Failure) (s : S)
      → process p driver emit now job desk
        ≡ report_failure p driver emit job f (record { world = desk.world; sockets = s })
      → EndsFailed (string_of job.id) f s
  unfolding report_failure
  ends_failed f s e =
      let text = message_of driver f in
      let says = message_of-Says driver f in
      elim (saved_cases (send_error (string_of job.id) text s)) [
        | inl (u, s', y) ↦
            (text, says, ground (arith, e, y), inl (ground (arith, y), ground (arith, e, y)))
        | inr (g, s', y) ↦
            (text, says, ground (arith, e, y), inr (g, ground (arith, y), ground (arith, e, y)))
      ]

  -- A job of the queue ends in one of three ways, and writes neither the database nor Redis. The report
  -- is made and sent to the user who requested it as `tasks-report:done`, with the job's id, and it is
  -- the job's result. Or the report is not made: the requester is sent the error's message, that of the
  -- driver for a failed query, as `tasks-report:failed`, and the error is thrown on. Or sending the
  -- report throws, and the requester is sent that error in the same way. If sending an error throws, what
  -- it throws takes the place of the error.
  pub process_cases :
      (id : String) × Named job.id id
      × (((r : TasksReportDto D) × (made ≡ ok r)
            × ((send_report id r desk.sockets).0 ≡ ok tt)
            × (process p driver emit now job desk ≡ (
              ok r,
              record { world = desk.world; sockets = (send_report id r desk.sockets).1 },
            )))
          ⊎ (((f : Failure) × (made ≡ throw f) × EndsFailed id f desk.sockets)
              ⊎ ((r : TasksReportDto D) × (f : Failure) × (made ≡ ok r)
                  × ((send_report id r desk.sockets).0 ≡ throw f)
                  × EndsFailed id f (send_report id r desk.sockets).1)))
  unfolding process deliver report_failure
  process_cases =
      let id = string_of job.id in
      let named = string_of-Named job.id in
      elim (saved_cases (make_report p {D = D} now job.payload desk.world)) [
        | inl (r, w, e) ↦ elim (saved_cases (send_report id r desk.sockets)) [
          | inl (u, s, x) ↦ (
            id,
            named,
            inl (r, ground (arith, e), ground (arith, x), ground (arith, e, x, same_world)),
          )
          | inr (f, s, x) ↦
              let end =
                ends_failed f (send_report id r desk.sockets).1
                  (ground (arith, e, x, same_world)) in
              (id, named, inr (inr (r, f, ground (arith, e), ground (arith, x), end)))
        ]
        | inr (f, w, e) ↦
            let end = ends_failed f desk.sockets (ground (arith, e, same_world)) in
            (id, named, inr (inl (f, ground (arith, e), end)))
      ]
