-- ===== src/Reports/Contents.antt =====
-- What a report holds: the figures of the tasks in its scope.
use mathlib.Core.List.{Permᴰ}
use nestjs_team_tasks_api.Prelude.{
  ℕ, ◌+◌, ◌≤◌, String, Bool, ◌&&◌, some, List, [], ◌∷◌, ◌≡◌, refl, ◌⊎◌, inl, inr, arith, keep, has,
  length, length-map, ◌==◌, string_eq, keep-eq,
}
use nestjs_team_tasks_api.Js.{truthy_field}
use nestjs_team_tasks_api.Js.Double.{Double, ascending}
use nestjs_team_tasks_api.Js.Sort.Laws.{IsOrder}
use nestjs_team_tasks_api.Entities.{
  Task, todo, in_progress, overdue, status_eq, low, medium, high, priority_eq, load_task,
}
use nestjs_team_tasks_api.Exec.{Failure, ok, throw}
use nestjs_team_tasks_api.Exec.Cases.{result_cases}
use nestjs_team_tasks_api.Platform.{Platform, World, Criteria, equal, is_null, matches_task}
use nestjs_team_tasks_api.Platform.Laws.{UserLaws, TaskLaws}
use nestjs_team_tasks_api.Tasks.Service.{find_all}
use nestjs_team_tasks_api.Tasks.Objects.{to_dto}
use nestjs_team_tasks_api.Reports.Service.{TasksReportJobPayload}
use nestjs_team_tasks_api.Reports.Report.{TasksReportDto, no_tasks, report_of, percent, average}
use nestjs_team_tasks_api.Reports.Processor.{assigned_to, get_assignee_ids, make_report}
use nestjs_team_tasks_api.Reports.Counts.{
  loaded, count, is_done, is_late, times, plus_rows, count_tasks_lem,
}
use nestjs_team_tasks_api.Reports.Median.{IsMedian, calculate_median-IsMedian}
use nestjs_team_tasks_api.Reports.Scope.{is_none, counted_user, target_or_team_cases, UsersFailed}

-- each figure of a report, as a function of the tasks that it is about
pub record Describes {D : Type 0} ⦃d : Double D⦄ (now : ℕ) (rows : List Task) (r : TasksReportDto D)
    : Type 0 where
  pub total : r.total ≡ length rows
  pub done_count : r.done_count ≡ count is_done rows
  pub done_percent : r.done_percent ≡ percent (count is_done rows) (length rows)
  pub low_tasks : r.distribution_by_priority.low_count ≡ count (λ t. t.priority == low) rows
  pub medium_tasks :
      r.distribution_by_priority.medium_count ≡ count (λ t. t.priority == medium) rows
  pub high_tasks : r.distribution_by_priority.high_count ≡ count (λ t. t.priority == high) rows
  pub todo_tasks : r.distribution_by_status.todo_count ≡ count (λ t. t.status == todo) rows
  pub started_tasks :
      r.distribution_by_status.in_progress_count ≡ count (λ t. t.status == in_progress) rows
  pub finished_tasks : r.distribution_by_status.done_count ≡ count is_done rows
  pub marked_tasks : r.distribution_by_status.overdue_count ≡ count (λ t. t.status == overdue) rows
  pub late_tasks : r.overdue_count ≡ count (is_late now) rows
  pub mean : r.avg_completion_time ≡ average (times rows)
  pub median : IsMedian (times rows) r.median_completion_time

counts_add_up :
    (now : ℕ) (rows : List Task)
    → (count (λ t. t.priority == low) rows
          + count (λ t. t.priority == medium) rows
          + count (λ t. t.priority == high) rows
        ≡ length rows)
      × (count (λ t. t.status == todo) rows
            + count (λ t. t.status == in_progress) rows
            + count is_done rows
            + count (λ t. t.status == overdue) rows
          ≡ length rows)
      × (count is_done rows + count (is_late now) rows ≤ length rows)
counts_add_up now [] = ground arith
counts_add_up now (t ∷ rows) = ground (arith, counts_add_up now rows)

module _ {D : Type 0} ⦃d : Double D⦄ where
  -- the report on tasks that were loaded from rows
  abbrev pub report_on : ℕ → List Task → TasksReportDto D
  report_on now rows = report_of (length (loaded rows)) (plus_rows now rows no_tasks)

  report_on-Describes :
      IsOrder {A = D} ascending
      → (now : ℕ) (rows : List Task) → Describes now rows (report_on now rows)
  unfolding report_of
  report_on-Describes order now rows = record {
    total = length-map (λ t. to_dto (load_task t)) rows;
    done_count = omega arith;
    done_percent = ground (arith, length-map (λ (t : Task). to_dto (load_task t)) rows);
    low_tasks = omega arith;
    medium_tasks = omega arith;
    high_tasks = omega arith;
    todo_tasks = omega arith;
    started_tasks = omega arith;
    finished_tasks = omega arith;
    marked_tasks = omega arith;
    late_tasks = omega arith;
    mean = refl;
    median = calculate_median-IsMedian order (times rows);
  }

module _ (p : Platform) (users_laws : UserLaws p.users) (tasks_laws : TaskLaws p.tasks) {D : Type 0}
    ⦃d : Double D⦄ (order : IsOrder {A = D} ascending) (now : ℕ) (job : TasksReportJobPayload)
    (w : World p.Db p.Redis) where
  open p use {users, tasks}

  -- the live tasks of the organization of a job that are assigned to the users that it counts
  abbrev pub in_scope : Task → Bool
  in_scope t =
      is_none t.deleted_at
      && t.organization_id == job.organization_id
      && counted_user p users_laws (truthy_field job.target_user_id) job w t.assignee_id

  abbrev pub QueryFailed : Failure → Type 0
  QueryFailed f = UsersFailed p users_laws w f ⊎ ((c : Criteria) × (tasks.find c w.db ≡ throw f))

  -- the condition that `findAll` puts on the tasks of a report
  abbrev live_assigned : List String → Criteria
  live_assigned ids = record (assigned_to ids) {
    organization_id = some (equal job.organization_id);
    deleted_at = some is_null;
  }

  selected :
      (ids : List String) (t : Task)
      → has ids t.assignee_id
        ≡ counted_user p users_laws (truthy_field job.target_user_id) job w t.assignee_id
      → matches_task (live_assigned ids) t ≡ in_scope t
  selected ids t e = ground (arith, e)

  -- The report of a job, if no query of the database fails, holds the figures of a list of tasks that
  -- has, in some order, exactly the live tasks of the organization of the job that are assigned to its
  -- target, or, if it has no target, to the requester or to a live user of the organization of a lower
  -- rank. If a query fails, its error is thrown. Nothing is written.
  pub make_report_cases :
      ((rows : List Task) × Permᴰ rows (keep in_scope (tasks.rows w.db))
        × (r : TasksReportDto D) × Describes now rows r
        × (make_report p now job w ≡ (ok r, w)))
      ⊎ ((f : Failure) × QueryFailed f × (make_report p {D = D} now job w ≡ (throw f, w)))
  unfolding make_report get_assignee_ids find_all
  make_report_cases =
      elim (target_or_team_cases p users_laws (truthy_field job.target_user_id) job w) [
        | inr (f, x, failed) ↦ inr (f, inl failed, ground (arith, x))
        | inl (ids, x, h) ↦ elim (result_cases (tasks.find (live_assigned ids) w.db)) [
          | inr (f, y) ↦ inr (f, inr (live_assigned ids, y), ground (arith, x, y))
          | inl (rows, y) ↦
              let same : keep (matches_task (live_assigned ids)) (tasks.rows w.db)
                  ≡ keep in_scope (tasks.rows w.db) =
                keep-eq _ _ (tasks.rows w.db) (λ t. selected ids t (h t.assignee_id)) in
              inl (
                rows,
                rw (← same) (tasks_laws.find_perm (live_assigned ids) w.db rows y),
                report_on now rows,
                report_on-Describes order now rows,
                ground (arith, x, y, count_tasks_lem {D = D} now rows no_tasks),
              )
        ]
      ]

  -- In every report the numbers by priority add up to the total, and so do the numbers by status; the
  -- number of done tasks is that of the status, and the done and the late tasks are at most the total.
  pub make_report-sums :
      (r : TasksReportDto D)
      → (make_report p now job w).0 ≡ ok r
      → (r.distribution_by_priority.low_count + r.distribution_by_priority.medium_count
            + r.distribution_by_priority.high_count
          ≡ r.total)
        × (r.distribution_by_status.todo_count + r.distribution_by_status.in_progress_count
              + r.distribution_by_status.done_count + r.distribution_by_status.overdue_count
            ≡ r.total)
        × (r.done_count ≡ r.distribution_by_status.done_count)
        × (r.done_count + r.overdue_count ≤ r.total)
  make_report-sums r h = elim make_report_cases [
    | inr (f, _, e) ↦ ground (arith, e, h)
    | inl (rows, _, r', described, e) ↦
        let it : r' ≡ r = ground (arith, e, h) in
        rw (← it) (ground (arith, described, counts_add_up now rows))
  ]
