-- ===== src/Reports/Report.antt =====
-- src/modules/reports/processors/tasks-report-processor.ts: the figures of a report, with the object of
-- src/modules/reports/dto/tasks-report.dto.ts. The arithmetic of doubles is a parameter.
use nestjs_team_tasks_api.Prelude.{
  ℕ, ◌+◌, ◌-◌, ◌/◌, ◌%◌, Bool, true, false, not, ◌&&◌, List, [], ◌∷◌, ◌++◌, length, ltb, nat_eqb,
  if◌then◌else◌,
}
use nestjs_team_tasks_api.Js.{Field, value, equals}
use nestjs_team_tasks_api.Js.Double.{Double, sum_from, ascending, at}
use nestjs_team_tasks_api.Js.Sort.{sort}
use nestjs_team_tasks_api.Entities.{
  TaskStatus, todo, in_progress, done, overdue, status_eq, TaskPriority, low, medium, high,
  priority_eq, Date,
}
use nestjs_team_tasks_api.Exec.{Exec, Result, ok, throw, other_error, pure, lift, ◌>>=◌, ◌>>◌}
use nestjs_team_tasks_api.Tasks.Dto.{TaskResponseDto}

-- `Record<TaskPriority, number>`
pub record PriorityCounts : Type 0 where
  pub low_count : ℕ
  pub medium_count : ℕ
  pub high_count : ℕ

-- `Record<TaskStatus, number>`
pub record StatusCounts : Type 0 where
  pub todo_count : ℕ
  pub in_progress_count : ℕ
  pub done_count : ℕ
  pub overdue_count : ℕ

pub record TasksReportDto (D : Type 0) : Type 0 where
  pub total : ℕ
  pub done_count : ℕ
  pub done_percent : D
  pub distribution_by_priority : PriorityCounts
  pub distribution_by_status : StatusCounts
  pub overdue_count : ℕ
  pub avg_completion_time : D
  pub median_completion_time : D

-- what the loop over the tasks changes: the fields of the report that it counts, and `completionTimes`
pub record Tally (D : Type 0) : Type 0 where
  pub done_count : ℕ
  pub by_priority : PriorityCounts
  pub by_status : StatusCounts
  pub overdue_count : ℕ
  pub completion_times : List D

-- `distributionByPriority[priority]++`, which leaves the three counts when there is no priority
abbrev pub count_priority : Field TaskPriority → PriorityCounts → PriorityCounts
count_priority (value low) c = record c { low_count = c.low_count + 1 }
count_priority (value medium) c = record c { medium_count = c.medium_count + 1 }
count_priority (value high) c = record c { high_count = c.high_count + 1 }
count_priority _ c = c

abbrev pub count_status : Field TaskStatus → StatusCounts → StatusCounts
count_status (value todo) c = record c { todo_count = c.todo_count + 1 }
count_status (value in_progress) c = record c { in_progress_count = c.in_progress_count + 1 }
count_status (value done) c = record c { done_count = c.done_count + 1 }
count_status (value overdue) c = record c { overdue_count = c.overdue_count + 1 }
count_status _ c = c

-- `date.getTime()`, a `TypeError` where there is no date
abbrev pub get_time : Field Date → Result ℕ
get_time (value date) = ok date
get_time _ = throw (other_error "Cannot read properties of undefined (reading 'getTime')")

module _ {D : Type 0} ⦃d : Double D⦄ where
  abbrev pub no_tasks : Tally D
  no_tasks = record {
    done_count = 0;
    by_priority = record { low_count = 0; medium_count = 0; high_count = 0 };
    by_status = record { todo_count = 0; in_progress_count = 0; done_count = 0; overdue_count = 0 };
    overdue_count = 0;
    completion_times = [];
  }

  abbrev pub change : (Tally D → Tally D) → Exec (Tally D) (Unit {0})
  change f t = (ok tt, f t)

  -- `if (task.status === TaskStatus.DONE) { … }`
  abbrev pub count_done : Bool → TaskResponseDto → Exec (Tally D) (Unit {0})
  count_done false task = pure tt
  count_done true task = do
    change (λ t. record t { done_count = t.done_count + 1 })
    updated ← lift (get_time task.updated_at)
    created ← lift (get_time task.created_at)
    change (λ t. record t {
      completion_times =
          t.completion_times
          ++ d.divided_by (d.minus (d.of_nat updated) (d.of_nat created)) (d.of_nat 1000) ∷ [];
    })

  abbrev pub count_overdue : Bool → Tally D → Tally D
  count_overdue true t = record t { overdue_count = t.overdue_count + 1 }
  count_overdue false t = t

  -- the body of `tasks.forEach`
  unfoldable pub count_task : ℕ → TaskResponseDto → Exec (Tally D) (Unit {0})
  count_task now task = do
    count_done (equals task.status done) task
    change (λ t. record t {
      by_priority = count_priority task.priority t.by_priority;
      by_status = count_status task.status t.by_status;
    })
    due ← lift (get_time task.due_date)
    change (count_overdue (ltb due now && not (equals task.status done)))

  unfoldable pub count_tasks : ℕ → List TaskResponseDto → Exec (Tally D) (Unit {0})
  unfolding count_task
  count_tasks now [] = pure tt
  count_tasks now (task ∷ tasks) = do count_task now task; count_tasks now tasks

  unfoldable pub calculate_median : List D → D
  unfolding sort
  calculate_median times =
      let sorted = sort ascending times in
      let n = length sorted in
      if nat_eqb n 0
      then d.of_nat 0
      else if nat_eqb (n % 2) 1
      then at sorted (n / 2)
      else d.divided_by (d.plus (at sorted (n / 2 - 1)) (at sorted (n / 2))) (d.of_nat 2)

  abbrev pub percent : ℕ → ℕ → D
  percent part total =
      if nat_eqb total 0
      then d.of_nat 0
      else d.times (d.divided_by (d.of_nat part) (d.of_nat total)) (d.of_nat 100)

  abbrev pub average : List D → D
  average times =
      if nat_eqb (length times) 0
      then d.of_nat 0
      else d.divided_by (sum_from (d.of_nat 0) times) (d.of_nat (length times))

  -- the report, once its tasks are counted
  unfoldable pub report_of : ℕ → Tally D → TasksReportDto D
  unfolding calculate_median
  report_of total t = record {
    total = total;
    done_count = t.done_count;
    done_percent = percent t.done_count total;
    distribution_by_priority = t.by_priority;
    distribution_by_status = t.by_status;
    overdue_count = t.overdue_count;
    avg_completion_time = average t.completion_times;
    median_completion_time = calculate_median t.completion_times;
  }
