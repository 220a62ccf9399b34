-- ===== src/Tasks/Overdue.antt =====
-- Which tasks are overdue: no request of a client makes one so, only the nightly job does.
use mathlib.Core.List.{Memᴰ}
use mathlib.Core.Path.{subst}
use nestjs_team_tasks_api.Prelude.{
  String, List, [], ◌∷◌, map, ◌≡◌, ◌≢◌, refl, sym, ap, ◌∙◌, inl, inr, arith, eq_iff, mem-map,
  string_eq,
}
use nestjs_team_tasks_api.Js.{absent, value}
use nestjs_team_tasks_api.Entities.{Task, TaskObject, AccessTokenPayload, overdue}
use nestjs_team_tasks_api.Exec.Cases.{saved_cases}
use nestjs_team_tasks_api.Queries.{in_org}
use nestjs_team_tasks_api.Platform.{Platform, World}
use nestjs_team_tasks_api.Platform.Laws.{TaskLaws}
use nestjs_team_tasks_api.Tasks.Dto.{UpdateTaskDto}
use nestjs_team_tasks_api.Tasks.Policy.Laws.{normalized, update_iff}
use nestjs_team_tasks_api.Tasks.Objects.{merge, task_data}
use nestjs_team_tasks_api.Tasks.Service.Footprint.{db-update, db-create, db-soft_delete}
use nestjs_team_tasks_api.Tasks.Service.Effects.{db-list, db-get_one}
use nestjs_team_tasks_api.Tasks.Controller.{
  Request, create_task, list_tasks, get_task, update_task, delete_task, handle, serve, world-handle,
}

-- every overdue task of `after` was an overdue task, with the same id, of `before`
pub NoNewOverdue : List Task → List Task → Type 0
NoNewOverdue before after =
    (t : Task)
    → Memᴰ t after
    → t.status ≡ overdue
    → (s : Task) × Memᴰ s before × (s.id ≡ t.id) × (s.status ≡ overdue)

NoNewOverdue-refl : (rows : List Task) → NoNewOverdue rows rows
unfolding NoNewOverdue
NoNewOverdue-refl rows t m e = (t, m, refl, e)

NoNewOverdue-of_eq : (before after : List Task) → after ≡ before → NoNewOverdue before after
unfolding NoNewOverdue
NoNewOverdue-of_eq before after e t m h = (t, subst (Memᴰ t) e m, refl, h)

NoNewOverdue-trans : (a b c : List Task) → NoNewOverdue a b → NoNewOverdue b c → NoNewOverdue a c
unfolding NoNewOverdue
NoNewOverdue-trans a b c f g t m h =
    let (s, n, i, k) = g t m h in let (r, o, j, l) = f s n k in (r, o, j ∙ i, l)

NoNewOverdue-map :
    (f : Task → Task) (rows : List Task)
    → ((s : Task) → Memᴰ s rows → (f s).status ≡ overdue → ((f s).id ≡ s.id) × (s.status ≡ overdue))
    → NoNewOverdue rows (map f rows)
unfolding NoNewOverdue
NoNewOverdue-map f rows h t m e =
    let (s, n, same) = mem-map f rows m in
    let (i, k) = h s n (ap (λ r. r.status) (sym same) ∙ e) in
    (s, n, sym i ∙ ap (λ r. r.id) (sym same), k)

NoNewOverdue-cons :
    (t : Task) (rows : List Task) → t.status ≢ overdue → NoNewOverdue rows (t ∷ rows)
unfolding NoNewOverdue
NoNewOverdue-cons t rows h s (Memᴰ.head e) o = absurd (h (ap (λ r. r.status) (sym e) ∙ o))
NoNewOverdue-cons t rows h s (Memᴰ.tail m) o = (s, m, refl, o)

module _ (p : Platform) (laws : TaskLaws p.tasks) (actor : AccessTokenPayload) where
  open p use {tasks}

  save-NoNewOverdue :
      (t : Task) (dto : UpdateTaskDto) (db : p.Db)
      → Memᴰ t (tasks.rows db)
      → dto.status ≢ value overdue
      → NoNewOverdue (tasks.rows db) (tasks.rows (tasks.save (merge t dto) db).1)
  unfolding merge
  save-NoNewOverdue t dto db stored allowed = elim (saved_cases (tasks.save (merge t dto) db)) [
    | inl (o, db', e) ↦
        let (now, _, rows) = laws.save_old (merge t dto) o db db' t stored refl e in
        rw (e, rows)
          (NoNewOverdue-map _ (tasks.rows db)
            λ s m h. ground (arith, eq_iff s.id t.id, laws.primary_key db s t m stored))
    | inr (f, db', e) ↦
        rw (e, laws.save_throws (merge t dto) db db' f e) (NoNewOverdue-refl (tasks.rows db))
  ]

  insert-NoNewOverdue :
      (o : TaskObject) (db : p.Db)
      → o.id ≡ absent
      → o.status ≢ value overdue
      → NoNewOverdue (tasks.rows db) (tasks.rows (tasks.save (tasks.create o) db).1)
  insert-NoNewOverdue o db new allowed = elim (saved_cases (tasks.save (tasks.create o) db)) [
    | inl (o', db', e) ↦
        let (t, ins, _, rows, _) = laws.save_new o o' db db' new e in
        rw (e, rows) (NoNewOverdue-cons t (tasks.rows db) (λ h. ground (arith, ins.status)))
    | inr (f, db', e) ↦
        rw (e, laws.save_throws (tasks.create o) db db' f e) (NoNewOverdue-refl (tasks.rows db))
  ]

  delete-NoNewOverdue :
      (id : String) (db : p.Db)
      → NoNewOverdue
          (tasks.rows db)
          (tasks.rows (tasks.soft_delete (in_org id actor.organization_id) db).1)
  delete-NoNewOverdue id db =
      elim (saved_cases (tasks.soft_delete (in_org id actor.organization_id) db)) [
        | inl (tt, db', e) ↦
            let (now, rows) = laws.soft_delete_ok (in_org id actor.organization_id) db db' e in
            rw (e, rows) (NoNewOverdue-map _ (tasks.rows db) λ s m h. ground arith)
        | inr (f, db', e) ↦
            rw (e, laws.soft_delete_throws _ db db' f e) (NoNewOverdue-refl (tasks.rows db))
      ]

  -- One request makes no task overdue, whether it succeeds or fails.
  handle-NoNewOverdue :
      (request : Request) (w : World p.Db p.Redis)
      → NoNewOverdue (tasks.rows w.db) (tasks.rows (handle p request actor w).1.db)
  unfolding task_data
  handle-NoNewOverdue (create_task dto) w = elim (db-create p actor w dto) [
    | inl same ↦
        rw (world-handle p (create_task dto) actor w, same) (NoNewOverdue-refl (tasks.rows w.db))
    | inr (may, e) ↦
        rw (world-handle p (create_task dto) actor w, e)
          (insert-NoNewOverdue (task_data dto (normalized actor dto) actor.organization_id) w.db
            refl (λ h. ground (arith, may.status_is_client's)))
  ]
  handle-NoNewOverdue (list_tasks dto) w =
      rw (world-handle p (list_tasks dto) actor w, db-list p dto actor w)
        (NoNewOverdue-refl (tasks.rows w.db))
  handle-NoNewOverdue (get_task id) w =
      rw (world-handle p (get_task id) actor w, db-get_one p id actor w)
        (NoNewOverdue-refl (tasks.rows w.db))
  handle-NoNewOverdue (update_task id dto) w = elim (db-update p actor w id dto) [
    | inl same ↦
        rw (world-handle p (update_task id dto) actor w, same) (NoNewOverdue-refl (tasks.rows w.db))
    | inr (t, found, allowed, e) ↦
        let (stored, _) = laws.find_one_some _ w.db t found in
        let (_, may, _) = (update_iff actor t dto).0.0 allowed in
        rw (world-handle p (update_task id dto) actor w, e)
          (save-NoNewOverdue t dto w.db stored may)
  ]
  handle-NoNewOverdue (delete_task id) w = elim (db-soft_delete p actor w id) [
    | inl same ↦
        rw (world-handle p (delete_task id) actor w, same) (NoNewOverdue-refl (tasks.rows w.db))
    | inr (t, found, allowed, e) ↦
        rw (world-handle p (delete_task id) actor w, e) (delete-NoNewOverdue id w.db)
  ]

module _ (p : Platform) (laws : TaskLaws p.tasks) where
  serve-NoNewOverdue :
      (requests : List (AccessTokenPayload × Request)) (w : World p.Db p.Redis)
      → NoNewOverdue (p.tasks.rows w.db) (p.tasks.rows (serve p requests w).db)
  unfolding serve
  serve-NoNewOverdue [] w = NoNewOverdue-refl (p.tasks.rows w.db)
  serve-NoNewOverdue ((user, request) ∷ rest) w =
      NoNewOverdue-trans _ _ _ (handle-NoNewOverdue p laws user request w)
        (serve-NoNewOverdue rest (handle p request user w).1)

  -- Whatever requests clients send to the tasks controller, in any order and whether they succeed
  -- or fail, a task that is overdue after them was, with the same id, overdue before them.
  pub overdue-serve :
      (requests : List (AccessTokenPayload × Request)) (w : World p.Db p.Redis) (t : Task)
      → Memᴰ t (p.tasks.rows (serve p requests w).db)
      → t.status ≡ overdue
      → (s : Task) × Memᴰ s (p.tasks.rows w.db) × (s.id ≡ t.id) × (s.status ≡ overdue)
  unfolding NoNewOverdue
  overdue-serve requests w t m e = serve-NoNewOverdue requests w t m e
