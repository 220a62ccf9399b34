-- ===== src/Tasks/Service/Footprint.antt =====
-- The one write that each operation makes, if it makes any.
use nestjs_team_tasks_api.Prelude.{String, some, ◌≡◌, ◌⊎◌, inl, inr, arith}
use nestjs_team_tasks_api.Entities.{Task, AccessTokenPayload}
use nestjs_team_tasks_api.Exec.{ok}
use nestjs_team_tasks_api.Exec.Cases.{found_cases}
use nestjs_team_tasks_api.Queries.{live_in_org, in_org}
use nestjs_team_tasks_api.Queries.Laws.{recover-as_conflict}
use nestjs_team_tasks_api.Platform.{Platform, World}
use nestjs_team_tasks_api.Tasks.Dto.{CreateTaskDto, UpdateTaskDto}
use nestjs_team_tasks_api.Tasks.Policy.{assert_can_update_task, assert_can_delete_task}
use nestjs_team_tasks_api.Tasks.Policy.Laws.{MayCreate, normalized, normalize_cases}
use nestjs_team_tasks_api.Tasks.Objects.{merge, task_data}
use nestjs_team_tasks_api.Tasks.Service.{save_and_bump, create, update, soft_delete}
use nestjs_team_tasks_api.Tasks.Service.Effects.{db-save_and_bump, db-delete_and_bump}

module _ (p : Platform) (actor : AccessTokenPayload) (w : World p.Db p.Redis) where
  open p use {tasks}

  -- the task that an operation finds by its id
  abbrev pub Found : String → Task → Type 0
  Found id t = tasks.find_one (live_in_org id actor.organization_id) w.db ≡ ok (some t)

  update_of :
      (t : Task) (id : String) (dto : UpdateTaskDto)
      → Found id t
      → ((update p id dto actor w).1.db ≡ w.db)
        ⊎ ((assert_can_update_task actor t dto ≡ ok tt)
            × ((update p id dto actor w).1.db ≡ (tasks.save (merge t dto) w.db).1))
  unfolding update
  update_of t id dto e = ground (arith, db-save_and_bump p (merge t dto) actor.organization_id w)

  delete_of :
      (t : Task) (id : String)
      → Found id t
      → ((soft_delete p id actor w).1.db ≡ w.db)
        ⊎ ((assert_can_delete_task actor t ≡ ok tt)
            × ((soft_delete p id actor w).1.db
                ≡ (tasks.soft_delete (in_org id actor.organization_id) w.db).1))
  unfolding soft_delete
  delete_of t id e = ground (arith, db-delete_and_bump p id actor.organization_id w)

  pub db-update :
      (id : String) (dto : UpdateTaskDto)
      → ((update p id dto actor w).1.db ≡ w.db)
        ⊎ ((t : Task) × Found id t
            × (assert_can_update_task actor t dto ≡ ok tt)
            × ((update p id dto actor w).1.db ≡ (tasks.save (merge t dto) w.db).1))
  unfolding update
  db-update id dto =
      elim (found_cases (tasks.find_one (live_in_org id actor.organization_id) w.db)) [
        | inl (t, e) ↦ elim (update_of t id dto e) [ inl h ↦ inl h | inr (a, h) ↦ inr (t, e, a, h) ]
        | inr (inl e) ↦ inl (ground (arith, e))
        | inr (inr (f, e)) ↦ inl (ground (arith, e))
      ]

  pub db-soft_delete :
      (id : String)
      → ((soft_delete p id actor w).1.db ≡ w.db)
        ⊎ ((t : Task) × Found id t
            × (assert_can_delete_task actor t ≡ ok tt)
            × ((soft_delete p id actor w).1.db
                ≡ (tasks.soft_delete (in_org id actor.organization_id) w.db).1))
  db-soft_delete id =
      elim (found_cases (tasks.find_one (live_in_org id actor.organization_id) w.db)) [
        | inl (t, e) ↦ elim (delete_of t id e) [ inl h ↦ inl h | inr (a, h) ↦ inr (t, e, a, h) ]
        | inr (inl e) ↦ inl (unfold soft_delete in (ground (arith, e)))
        | inr (inr (f, e)) ↦ inl (unfold soft_delete in (ground (arith, e)))
      ]

  pub db-create :
      (dto : CreateTaskDto)
      → ((create p dto actor w).1.db ≡ w.db)
        ⊎ (MayCreate actor dto
            × ((create p dto actor w).1.db
                ≡ (tasks.save
                    (tasks.create (task_data dto (normalized actor dto) actor.organization_id))
                    w.db).1))
  unfolding create
  db-create dto =
      let entity = tasks.create (task_data dto (normalized actor dto) actor.organization_id) in
      ground (
        arith,
        normalize_cases actor dto,
        db-save_and_bump p entity actor.organization_id w,
        recover-as_conflict "Task already exists" (save_and_bump p entity actor.organization_id w),
      )
