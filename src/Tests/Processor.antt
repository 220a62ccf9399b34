-- ===== src/Tests/Processor.antt =====
-- The theorems on the making of reports, at concrete inputs. Doubles are whole numbers here.
use mathlib.Core.List.{Permᴰ}
use nestjs_team_tasks_api.Prelude.{
  ℕ, ◌+◌, ◌-◌, ◌*◌, ◌/◌, ◌≤◌, String, List, [], ◌∷◌, ◌≡◌, ◌⊎◌, refl, arith, leb, keep,
}
use nestjs_team_tasks_api.Js.{absent, value}
use nestjs_team_tasks_api.Js.Double.{Double, ascending}
use nestjs_team_tasks_api.Js.Sort.Laws.{IsOrder}
use nestjs_team_tasks_api.Entities.{Task, owner}
use nestjs_team_tasks_api.Exec.{Exec, Failure, Result, ok, throw}
use nestjs_team_tasks_api.Platform.{World}
use nestjs_team_tasks_api.Users.Service as Users
use nestjs_team_tasks_api.Tasks.Service as Tasks
use nestjs_team_tasks_api.Memory.Repository.{repository}
use nestjs_team_tasks_api.Reports.Service.{TasksReportJobPayload}
use nestjs_team_tasks_api.Reports.Report.{TasksReportDto, calculate_median, count_tasks, report_of}
use nestjs_team_tasks_api.Reports.Median.{IsMedian, calculate_median-IsMedian}
use nestjs_team_tasks_api.Reports.Processor.{Job, ReportEvent, Desk, make_report, process}
use nestjs_team_tasks_api.Reports.Contents.{
  Describes, in_scope, QueryFailed, make_report_cases, make_report-sums,
}
use nestjs_team_tasks_api.Reports.Delivery.{Named, made, send_report, EndsFailed, process_cases}
use nestjs_team_tasks_api.Memory.World.{platform, Db, Redis}
use nestjs_team_tasks_api.Memory.World.Laws.{users_table-UserLaws, tasks_table-TaskLaws}
use nestjs_team_tasks_api.Tests.Data.{world}

instance abbrev pub whole : Double ℕ
whole = record {
  of_nat = λ n. n;
  plus = λ a b. a + b;
  minus = λ a b. a - b;
  times = λ a b. a * b;
  divided_by = λ a b. a / b;
  at_most = leb;
  nan = 0;
}

whole-IsOrder : IsOrder {A = ℕ} ascending
whole-IsOrder = record { total = λ a b. ground arith; transitive = λ a b c h k. ground arith }

calculate_median-IsMedian_example :
    IsMedian {D = ℕ} (5 ∷ 1 ∷ 4 ∷ 2 ∷ []) (calculate_median (5 ∷ 1 ∷ 4 ∷ 2 ∷ []))
calculate_median-IsMedian_example = calculate_median-IsMedian whole-IsOrder (5 ∷ 1 ∷ 4 ∷ 2 ∷ [])

median_of_four : ◌≡◌ {A = ℕ} (calculate_median (5 ∷ 1 ∷ 4 ∷ 2 ∷ [])) 3
unfolding calculate_median
median_of_four = refl

abbrev pub ask : TasksReportJobPayload
ask = record {
  organization_id = "acme";
  requested_by_user_id = "ann";
  requested_by_role = owner;
  target_user_id = absent;
}

make_report_cases_example :
    ((rows : List Task) × Permᴰ rows (
        keep
          (in_scope platform users_table-UserLaws tasks_table-TaskLaws whole-IsOrder 20 ask world)
          (platform.tasks.rows world.db))
      × (r : TasksReportDto ℕ) × Describes 20 rows r
      × (make_report platform 20 ask world ≡ (ok r, world)))
    ⊎ ((f : Failure) × QueryFailed platform users_table-UserLaws tasks_table-TaskLaws whole-IsOrder
          20 ask world f
        × (make_report platform {D = ℕ} 20 ask world ≡ (throw f, world)))
make_report_cases_example =
    make_report_cases platform users_table-UserLaws tasks_table-TaskLaws whole-IsOrder 20 ask world

abbrev pub team_report : TasksReportDto ℕ
team_report = record {
  total = 2;
  done_count = 0;
  done_percent = 0;
  distribution_by_priority = record { low_count = 2; medium_count = 0; high_count = 0 };
  distribution_by_status = record {
    todo_count = 2;
    in_progress_count = 0;
    done_count = 0;
    overdue_count = 0;
  };
  overdue_count = 2;
  avg_completion_time = 0;
  median_completion_time = 0;
}

make_report_run : (make_report platform 20 ask world).0 ≡ ok team_report
unfolding make_report Users.find_all Tasks.find_all repository count_tasks report_of
make_report_run = refl

make_report-sums_example :
    (team_report.distribution_by_priority.low_count
        + team_report.distribution_by_priority.medium_count
        + team_report.distribution_by_priority.high_count
      ≡ team_report.total)
    × (team_report.distribution_by_status.todo_count
          + team_report.distribution_by_status.in_progress_count
          + team_report.distribution_by_status.done_count
          + team_report.distribution_by_status.overdue_count
        ≡ team_report.total)
    × (team_report.done_count ≡ team_report.distribution_by_status.done_count)
    × (team_report.done_count + team_report.overdue_count ≤ team_report.total)
make_report-sums_example =
    make_report-sums platform users_table-UserLaws tasks_table-TaskLaws whole-IsOrder 20 ask world
      team_report make_report_run

abbrev Sent : Type 0
Sent = List (String × String)

abbrev send : String → String → ReportEvent ℕ → Exec Sent (Unit {0})
send user event payload sent = (ok tt, (user, event) ∷ sent)

abbrev pub job : Job
job = record { id = value "7"; payload = ask }

abbrev desk : Desk (World Db Redis) Sent
desk = record { world = world; sockets = [] }

abbrev pub driver : String → String
driver code = code

process_cases_example :
    (id : String) × Named job.id id
    × (((r : TasksReportDto ℕ) × (made platform driver send 20 job desk ≡ ok r)
          × ((send_report platform driver send 20 job desk id r desk.sockets).0 ≡ ok tt)
          × (process platform driver send 20 job desk ≡ (
            ok r,
            record {
              world = desk.world;
              sockets = (send_report platform driver send 20 job desk id r desk.sockets).1;
            },
          )))
        ⊎ (((f : Failure) × (made platform driver send 20 job desk ≡ throw f)
              × EndsFailed platform driver send 20 job desk id f desk.sockets)
            ⊎ ((r : TasksReportDto ℕ) × (f : Failure) × (made platform driver send 20 job desk
                  ≡ ok r)
                × ((send_report platform driver send 20 job desk id r desk.sockets).0 ≡ throw f)
                × EndsFailed platform driver send 20 job desk id f
                    (send_report platform driver send 20 job desk id r desk.sockets).1)))
process_cases_example = process_cases platform driver send 20 job desk

abbrev sent_of : Result (TasksReportDto ℕ) × Desk (World Db Redis) Sent → Sent
sent_of x = x.1.sockets

process_run : sent_of (process platform driver send 20 job desk) ≡ ("ann", "tasks-report:done") ∷ []
unfolding process make_report Users.find_all Tasks.find_all repository count_tasks
process_run = refl
