-- ===== src/Tasks/Cron/Laws.antt =====
-- What the nightly job does to the tasks, and to the cached lists.
use nestjs_team_tasks_api.Prelude.{
  Bool, true, false, not, ◌&&◌, none, some, List, [], ◌∷◌, map, ◌≡◌, refl, ap, sym, ◌∙◌, ◌⊎◌, inl,
  inr, arith, ltb, ◌==◌, if◌then◌else◌,
}
use nestjs_team_tasks_api.Entities.{Date, Task, done, overdue, status_eq}
use nestjs_team_tasks_api.Exec.{Failure, ok, throw}
use nestjs_team_tasks_api.Exec.Cases.{saved_cases}
use nestjs_team_tasks_api.Platform.{Platform, World, matches_task, write_task}
use nestjs_team_tasks_api.Platform.Laws.{TaskLaws}
use nestjs_team_tasks_api.Tasks.Cron.{handle_task_overdue, past_due, marked}

-- the task is live, its due date has passed, and it is neither done nor overdue yet
abbrev pub is_due : Date → Task → Bool
is_due now t =
    ltb t.due_date now
    && not (t.status == done)
    && not (t.status == overdue)
    && elim t.deleted_at [ none ↦ true | some d ↦ false ]

-- the due tasks become overdue, updated at `stamp`
abbrev pub mark : Date → Date → List Task → List Task
mark now stamp rows =
    map (λ t. if is_due now t then record t { status = overdue; updated_at = stamp } else t) rows

matches-past_due : (now : Date) (t : Task) → matches_task (past_due now) t ≡ is_due now t
matches-past_due now t = ground arith

mark_lem :
    (now stamp : Date) (rows : List Task)
    → map (λ s. if matches_task (past_due now) s then write_task stamp marked s else s) rows
      ≡ mark now stamp rows
mark_lem now stamp [] = refl
mark_lem now stamp (t ∷ rows) = ground (arith, matches-past_due now t, mark_lem now stamp rows)

mark-mark :
    (now stamp stamp' : Date) (rows : List Task)
    → mark now stamp' (mark now stamp rows) ≡ mark now stamp rows
mark-mark now stamp stamp' [] = refl
mark-mark now stamp stamp' (t ∷ rows) = ground (arith, mark-mark now stamp stamp' rows)

module _ (p : Platform) (laws : TaskLaws p.tasks) (now : Date) (w : World p.Db p.Redis) where
  open p use {tasks}

  -- The job at the time `now` leaves Redis alone. If it returns, exactly the tasks that are live,
  -- past their due date and neither done nor overdue have become overdue, with nothing else of
  -- them changed but the time of their update; if it throws, the tasks are unchanged.
  pub handle_task_overdue_lem :
      ((handle_task_overdue p now w).1.redis ≡ w.redis)
      × (((handle_task_overdue p now w).0 ≡ ok tt)
            × ((stamp : Date) × (tasks.rows (handle_task_overdue p now w).1.db
                  ≡ mark now stamp (tasks.rows w.db)))
          ⊎ ((f : Failure) × ((handle_task_overdue p now w).0 ≡ throw f)
              × (tasks.rows (handle_task_overdue p now w).1.db ≡ tasks.rows w.db)))
  unfolding handle_task_overdue
  handle_task_overdue_lem = elim (saved_cases (tasks.update (past_due now) marked w.db)) [
    | inl (n, db', e) ↦
        let (stamp, _, rows) = laws.update_ok _ marked w.db db' n e in
        (
          ground (arith, e),
          inl (ground (arith, e), (stamp, rw e (rows ∙ mark_lem now stamp (tasks.rows w.db)))),
        )
    | inr (f, db', e) ↦ (
      ground (arith, e),
      inr (f, ground (arith, e), rw e (laws.update_throws _ marked w.db db' f e)),
    )
  ]

module _ (p : Platform) (laws : TaskLaws p.tasks) where
  open p use {tasks}

  -- Once the job has returned, a second run for the same time leaves the tasks as they are,
  -- whether it returns or throws.
  pub handle_task_overdue-twice :
      (now : Date) (w : World p.Db p.Redis)
      → (handle_task_overdue p now w).0 ≡ ok tt
      → tasks.rows (handle_task_overdue p now (handle_task_overdue p now w).1).1.db
        ≡ tasks.rows (handle_task_overdue p now w).1.db
  handle_task_overdue-twice now w h = elim ((handle_task_overdue_lem p laws now w).1) [
    | inl (_, (stamp, first)) ↦
        elim ((handle_task_overdue_lem p laws now (handle_task_overdue p now w).1).1) [
          | inl (_, (stamp', again)) ↦
              again
              ∙ ap (mark now stamp') first
              ∙ mark-mark now stamp stamp' (tasks.rows w.db)
              ∙ sym first
          | inr (_, _, again) ↦ again
        ]
    | inr (f, thrown, _) ↦ absurd (ground (arith, h, thrown))
  ]
