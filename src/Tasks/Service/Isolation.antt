-- ===== src/Tasks/Service/Isolation.antt =====
-- Writes of the tasks service stay within the reach of the actor: the actor's organization and,
-- for an employee, the actor's own tasks.
use mathlib.Core.List.{Memᴰ}
use nestjs_team_tasks_api.Prelude.{
  ℕ, String, Bool, true, not, ◌&&◌, ◌||◌, List, ◌≡◌, inl, inr, refl, arith, keep, keep-map, ◌==◌,
  string_eq, eq_iff,
}
use nestjs_team_tasks_api.Js.{absent, value}
use nestjs_team_tasks_api.Entities.{Task, TaskObject, AccessTokenPayload, employee, role_eq}
use nestjs_team_tasks_api.Exec.{ok}
use nestjs_team_tasks_api.Platform.{Platform, World, write_task}
use nestjs_team_tasks_api.Platform.Laws.{TaskLaws}
use nestjs_team_tasks_api.Exec.Cases.{found_cases, saved_cases}
use nestjs_team_tasks_api.Queries.Laws.{recover-as_conflict, matches-live_in_org}
use nestjs_team_tasks_api.Tasks.Policy.Laws.{normalized, normalize_cases}
use nestjs_team_tasks_api.Queries.{live_in_org, in_org}
use nestjs_team_tasks_api.Tasks.Dto.{CreateTaskDto, UpdateTaskDto}
use nestjs_team_tasks_api.Tasks.Policy.{assert_can_update_task, assert_can_delete_task}
use nestjs_team_tasks_api.Tasks.Objects.{merge, task_data}
use nestjs_team_tasks_api.Tasks.Service.Effects.{db-save_and_bump, db-delete_and_bump}
use nestjs_team_tasks_api.Tasks.Service.{save_and_bump, create, update, soft_delete}

-- the tasks that an actor may see and change
abbrev pub within : AccessTokenPayload → Task → Bool
within actor t =
    t.organization_id == actor.organization_id
    && (not (actor.role == employee) || t.assignee_id == actor.sub)

-- the rows out of the actor's reach
abbrev pub others : AccessTokenPayload → List Task → List Task
others actor rows = keep (λ t. not (within actor t)) rows

-- an update that the policy allows leaves the row within reach
write-within :
    (actor : AccessTokenPayload) (t : Task) (dto : UpdateTaskDto) (now : ℕ)
    → t.organization_id ≡ actor.organization_id
    → assert_can_update_task actor t dto ≡ ok tt
    → (within actor t ≡ true) × (within actor (write_task now (merge t dto) t) ≡ true)
unfolding assert_can_update_task merge
write-within actor t dto now org allowed =
    ground (arith, eq_iff t.organization_id actor.organization_id, eq_iff t.assignee_id actor.sub)

module _ (p : Platform) (laws : TaskLaws p.tasks) (actor : AccessTokenPayload) where
  open p use {tasks}

  -- the save of `update`, of a task that was just found
  others-save :
      (t : Task) (dto : UpdateTaskDto) (db : p.Db)
      → Memᴰ t (tasks.rows db)
      → t.organization_id ≡ actor.organization_id
      → assert_can_update_task actor t dto ≡ ok tt
      → others actor (tasks.rows (tasks.save (merge t dto) db).1) ≡ others actor (tasks.rows db)
  unfolding merge
  others-save t dto db stored org allowed = elim (saved_cases (tasks.save (merge t dto) db)) [
    | inl (o, db', e) ↦
        let (now, _, rows) = laws.save_old (merge t dto) o db db' t stored refl e in
        rw (e, rows)
          (keep-map (λ t. not (within actor t)) _ (tasks.rows db)
            λ s m. ground (
              arith,
              eq_iff s.id t.id,
              laws.primary_key db s t m stored,
              write-within actor t dto now org allowed,
            ))
    | inr (f, db', e) ↦ rw (e, laws.save_throws (merge t dto) db db' f e)
  ]

  others-soft_delete_row :
      (t : Task) (id : String) (db : p.Db)
      → Memᴰ t (tasks.rows db)
      → t.id ≡ id
      → within actor t ≡ true
      → others actor (tasks.rows (tasks.soft_delete (in_org id actor.organization_id) db).1)
        ≡ others actor (tasks.rows db)
  others-soft_delete_row t id db stored same mine =
      elim (saved_cases (tasks.soft_delete (in_org id actor.organization_id) db)) [
        | inl (tt, db', e) ↦
            let (now, rows) = laws.soft_delete_ok (in_org id actor.organization_id) db db' e in
            rw (e, rows)
              (keep-map (λ t. not (within actor t)) _ (tasks.rows db)
                λ s m. ground (
                  arith,
                  eq_iff s.id id,
                  eq_iff s.organization_id actor.organization_id,
                  laws.primary_key db s t m stored,
                ))
        | inr (f, db', e) ↦ rw (e, laws.soft_delete_throws _ db db' f e)
      ]

  others-insert :
      (o : TaskObject) (db : p.Db)
      → o.id ≡ absent
      → o.organization_id ≡ value actor.organization_id
      → (actor.role ≡ employee → o.assignee_id ≡ value actor.sub)
      → others actor (tasks.rows (tasks.save (tasks.create o) db).1) ≡ others actor (tasks.rows db)
  others-insert o db new org own = elim (saved_cases (tasks.save (tasks.create o) db)) [
    | inl (o', db', e) ↦
        let (t, ins, _, rows, _) = laws.save_new o o' db db' new e in
        rw (e, rows)
          (ground (
            arith,
            ins.organization_id,
            ins.assignee_id,
            eq_iff t.organization_id actor.organization_id,
            eq_iff t.assignee_id actor.sub,
          ))
    | inr (f, db', e) ↦ rw (e, laws.save_throws (tasks.create o) db db' f e)
  ]

  -- Whatever `update` returns or throws, the rows out of the actor's reach are unchanged.
  pub others-update :
      (id : String) (dto : UpdateTaskDto) (w : World p.Db p.Redis)
      → others actor (tasks.rows (update p id dto actor w).1.db) ≡ others actor (tasks.rows w.db)
  unfolding update
  others-update id dto w =
      elim (found_cases (tasks.find_one (live_in_org id actor.organization_id) w.db)) [
        | inl (t, e) ↦
            let (stored, m) = laws.find_one_some _ w.db t e in
            let (_, org, _) = matches-live_in_org id actor.organization_id t m in
            ground (
              arith,
              e,
              others-save t dto w.db stored org,
              db-save_and_bump p (merge t dto) actor.organization_id w,
            )
        | inr (inl e) ↦ ground (arith, e)
        | inr (inr (f, e)) ↦ ground (arith, e)
      ]

  pub others-soft_delete :
      (id : String) (w : World p.Db p.Redis)
      → others actor (tasks.rows (soft_delete p id actor w).1.db) ≡ others actor (tasks.rows w.db)
  unfolding soft_delete assert_can_delete_task
  others-soft_delete id w =
      elim (found_cases (tasks.find_one (live_in_org id actor.organization_id) w.db)) [
        | inl (t, e) ↦
            let (stored, m) = laws.find_one_some _ w.db t e in
            let (same, org, _) = matches-live_in_org id actor.organization_id t m in
            ground (
              arith,
              e,
              others-soft_delete_row t id w.db stored same,
              db-delete_and_bump p id actor.organization_id w,
              eq_iff t.assignee_id actor.sub,
              eq_iff t.organization_id actor.organization_id,
            )
        | inr (inl e) ↦ ground (arith, e)
        | inr (inr (f, e)) ↦ ground (arith, e)
      ]

  pub others-create :
      (dto : CreateTaskDto) (w : World p.Db p.Redis)
      → others actor (tasks.rows (create p dto actor w).1.db) ≡ others actor (tasks.rows w.db)
  unfolding create task_data
  others-create dto w = ground (
    arith,
    normalize_cases actor dto,
    others-insert (task_data dto (normalized actor dto) actor.organization_id) w.db refl refl,
    db-save_and_bump p (tasks.create (task_data dto (normalized actor dto) actor.organization_id))
        actor.organization_id w,
    recover-as_conflict "Task already exists" (
        save_and_bump p (tasks.create (task_data dto (normalized actor dto) actor.organization_id))
          actor.organization_id w),
  )
