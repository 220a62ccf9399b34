-- ===== src/Reports/Counts.antt =====
-- What the loop of a report counts, over the rows that the tasks were loaded from.
use nestjs_team_tasks_api.Prelude.{
  ℕ, ◌+◌, Bool, not, ◌&&◌, List, [], ◌∷◌, ◌++◌, map, ◌≡◌, ap, ◌∙◌, arith, length, keep, ltb, ◌==◌,
}
use mathlib.Core.List.{append_assoc, append-nil}
use nestjs_team_tasks_api.Js.Double.{Double}
use nestjs_team_tasks_api.Entities.{
  Task, todo, in_progress, done, overdue, status_eq, low, medium, high, priority_eq, load_task,
}
use nestjs_team_tasks_api.Exec.{ok}
use nestjs_team_tasks_api.Tasks.Dto.{TaskResponseDto}
use nestjs_team_tasks_api.Tasks.Objects.{to_dto}
use nestjs_team_tasks_api.Reports.Report.{Tally, count_task, count_tasks}

abbrev pub loaded : List Task → List TaskResponseDto
loaded rows = map (λ t. to_dto (load_task t)) rows

abbrev pub count : {A : Type 0} → (A → Bool) → List A → ℕ
count p xs = length (keep p xs)

abbrev pub is_done : Task → Bool
is_done t = t.status == done

-- due before `now` and not done
abbrev pub is_late : ℕ → Task → Bool
is_late now t = ltb t.due_date now && not (is_done t)

module _ {D : Type 0} ⦃d : Double D⦄ where
  -- the time from the creation of a task to its last change, in seconds
  abbrev pub seconds : Task → D
  seconds t = d.divided_by (d.minus (d.of_nat t.updated_at) (d.of_nat t.created_at)) (d.of_nat 1000)

  abbrev pub times : List Task → List D
  times rows = map seconds (keep is_done rows)

  -- a tally to which the rows are added
  abbrev pub plus_rows : ℕ → List Task → Tally D → Tally D
  plus_rows now rows t = record {
    done_count = t.done_count + count is_done rows;
    by_priority = record {
      low_count = t.by_priority.low_count + count (λ r. r.priority == low) rows;
      medium_count = t.by_priority.medium_count + count (λ r. r.priority == medium) rows;
      high_count = t.by_priority.high_count + count (λ r. r.priority == high) rows;
    };
    by_status = record {
      todo_count = t.by_status.todo_count + count (λ r. r.status == todo) rows;
      in_progress_count = t.by_status.in_progress_count + count (λ r. r.status == in_progress) rows;
      done_count = t.by_status.done_count + count is_done rows;
      overdue_count = t.by_status.overdue_count + count (λ r. r.status == overdue) rows;
    };
    overdue_count = t.overdue_count + count (is_late now) rows;
    completion_times = t.completion_times ++ times rows;
  }

  -- a tally to which one row is added
  abbrev plus_row : ℕ → Task → Tally D → Tally D
  plus_row now r t = plus_rows now (r ∷ []) t

  count_task_lem :
      (now : ℕ) (r : Task) (t : Tally D)
      → count_task now (to_dto (load_task r)) t ≡ (ok tt, plus_row now r t)
  unfolding count_task to_dto
  count_task_lem now r t = ground (arith, append-nil t.completion_times)

  plus_rows-plus_row :
      (now : ℕ) (r : Task) (rows : List Task) (t : Tally D)
      → plus_rows now rows (plus_row now r t) ≡ plus_rows now (r ∷ rows) t
  plus_rows-plus_row now r rows t = ground (
    arith,
    append-nil t.completion_times,
    append_assoc t.completion_times (seconds r ∷ []) (times rows),
  )

  pub count_tasks_lem :
      (now : ℕ) (rows : List Task) (t : Tally D)
      → count_tasks now (loaded rows) t ≡ (ok tt, plus_rows now rows t)
  unfolding count_tasks
  count_tasks_lem now [] t = ground (arith, append-nil t.completion_times)
  count_tasks_lem now (r ∷ rows) t = rw (count_task_lem now r t) (
      count_tasks_lem now rows (plus_row now r t)
      ∙ ap (λ (x : Tally D). (ok tt, x)) (plus_rows-plus_row now r rows t))
