-- ===== src/Tasks/Writes.antt =====
-- The writing operations of src/modules/tasks/tasks.service.ts and the version of the cached lists.
use nestjs_team_tasks_api.Prelude.{suc, String, Option, ◌≡◌, ◌≢◌, inl, inr, arith, ℕ, string_eq}
use nestjs_team_tasks_api.Js.Number.{pos}
use nestjs_team_tasks_api.Js.Text.{NoColon}
use nestjs_team_tasks_api.Entities.{TaskObject, AccessTokenPayload, role_eq}
use nestjs_team_tasks_api.Exec.{ok, try_catch}
use nestjs_team_tasks_api.Exec.Cases.{found_cases, result_cases, saved_cases}
use nestjs_team_tasks_api.Platform.{Platform, World}
use nestjs_team_tasks_api.Platform.Laws.{RedisLaws}
use nestjs_team_tasks_api.Queries.{live_in_org, in_org, as_conflict}
use nestjs_team_tasks_api.Tasks.Dto.{
  CreateTaskDto, UpdateTaskDto, ListTasksQueryDto, TaskResponseDto,
}
use nestjs_team_tasks_api.Tasks.Policy.{normalize_create_task_input}
use nestjs_team_tasks_api.Tasks.Cache.{
  version_of, org_tasks_list_version_key, bump_org_list_cache, build_cache_key,
}
use nestjs_team_tasks_api.Tasks.Cache.Effects.{current_version}
use nestjs_team_tasks_api.Tasks.Cache.Invalidation.{bump-new_keys}
use nestjs_team_tasks_api.Tasks.Objects.{task_data, merge}
use nestjs_team_tasks_api.Tasks.Service.{
  save_and_bump, delete_and_bump, create, update, soft_delete,
}

module _ (p : Platform) where
  open p use {tasks, users, projects, client}

  -- the organization's version is incremented, in the Redis of `w`
  abbrev Bumped : String → World p.Db p.Redis → World p.Db p.Redis → Type 0
  Bumped org w after = after.redis ≡ (bump_org_list_cache p org w).1.redis

  save_and_bump-Bumped :
      (o : TaskObject) (org : String) (w : World p.Db p.Redis) (r : TaskResponseDto)
      → (save_and_bump p o org w).0 ≡ ok r
      → Bumped org w (save_and_bump p o org w).1
  unfolding save_and_bump bump_org_list_cache
  save_and_bump-Bumped o org w r h = elim (saved_cases (tasks.save o w.db)) [
    | inl (saved, db, e) ↦ ground (arith, h, e)
    | inr (f, db, e) ↦ ground (arith, h, e)
  ]

  delete_and_bump-Bumped :
      (id org : String) (w : World p.Db p.Redis)
      → (delete_and_bump p id org w).0 ≡ ok tt
      → Bumped org w (delete_and_bump p id org w).1
  unfolding delete_and_bump bump_org_list_cache
  delete_and_bump-Bumped id org w h = elim (saved_cases (tasks.soft_delete (in_org id org) w.db)) [
    | inl (u, db, e) ↦ ground (arith, h, e)
    | inr (f, db, e) ↦ ground (arith, h, e)
  ]

  -- the end of `create`
  saved-Bumped :
      (o : TaskObject) (org : String) (w : World p.Db p.Redis) (r : TaskResponseDto)
      → (try_catch (save_and_bump p o org) (as_conflict "Task already exists") w).0 ≡ ok r
      → Bumped org w (try_catch (save_and_bump p o org) (as_conflict "Task already exists") w).1
  unfolding as_conflict
  saved-Bumped o org w r h = elim (saved_cases (save_and_bump p o org w)) [
    | inl (saved, w', e) ↦ ground (arith, h, e, save_and_bump-Bumped o org w saved)
    | inr (f, w', e) ↦ absurd (ground (arith, h, e))
  ]

  create-Bumped :
      (dto : CreateTaskDto) (actor : AccessTokenPayload) (w : World p.Db p.Redis)
      (r : TaskResponseDto)
      → (create p dto actor w).0 ≡ ok r
      → Bumped actor.organization_id w (create p dto actor w).1
  unfolding create
  create-Bumped dto actor w r h =
      let org = actor.organization_id in
      elim (found_cases (projects.find_one (live_in_org dto.project_id org) w.db)) [
        | inr (inl e) ↦ absurd (ground (arith, h, e))
        | inr (inr (f, e)) ↦ absurd (ground (arith, h, e))
        | inl (project, e) ↦ elim (result_cases (normalize_create_task_input actor dto)) [
          | inr (f, n) ↦ absurd (ground (arith, h, e, n))
          | inl (normalized, n) ↦
              elim (found_cases (users.find_one (live_in_org normalized.assignee_id org) w.db)) [
                | inr (inl u) ↦ absurd (ground (arith, h, e, n, u))
                | inr (inr (f, u)) ↦ absurd (ground (arith, h, e, n, u))
                | inl (user, u) ↦
                    let o = tasks.create (task_data dto normalized org) in
                    ground (arith, h, e, n, u, saved-Bumped o org w r)
              ]
        ]
      ]

  update-Bumped :
      (id : String) (dto : UpdateTaskDto) (actor : AccessTokenPayload) (w : World p.Db p.Redis)
      (r : TaskResponseDto)
      → (update p id dto actor w).0 ≡ ok r
      → Bumped actor.organization_id w (update p id dto actor w).1
  unfolding update
  update-Bumped id dto actor w r h =
      elim (found_cases (tasks.find_one (live_in_org id actor.organization_id) w.db)) [
        | inr (inl e) ↦ absurd (ground (arith, h, e))
        | inr (inr (f, e)) ↦ absurd (ground (arith, h, e))
        | inl (t, e) ↦
            ground (arith, h, e, save_and_bump-Bumped (merge t dto) actor.organization_id w r)
      ]

  soft_delete-Bumped :
      (id : String) (actor : AccessTokenPayload) (w : World p.Db p.Redis)
      → (soft_delete p id actor w).0 ≡ ok tt
      → Bumped actor.organization_id w (soft_delete p id actor w).1
  unfolding soft_delete
  soft_delete-Bumped id actor w h =
      elim (found_cases (tasks.find_one (live_in_org id actor.organization_id) w.db)) [
        | inr (inl e) ↦ absurd (ground (arith, h, e))
        | inr (inr (f, e)) ↦ absurd (ground (arith, h, e))
        | inl (t, e) ↦ ground (arith, h, e, delete_and_bump-Bumped id actor.organization_id w)
      ]

  -- `after` is the state after a write of the organization's tasks that succeeded
  pub data Wrote (org : String) (w : World p.Db p.Redis) : World p.Db p.Redis → Type 0 where
    created :
        (dto : CreateTaskDto) (actor : AccessTokenPayload) (r : TaskResponseDto)
        → actor.organization_id ≡ org
        → (create p dto actor w).0 ≡ ok r
        → Wrote org w (create p dto actor w).1
    updated :
        (id : String) (dto : UpdateTaskDto) (actor : AccessTokenPayload) (r : TaskResponseDto)
        → actor.organization_id ≡ org
        → (update p id dto actor w).0 ≡ ok r
        → Wrote org w (update p id dto actor w).1
    deleted :
        (id : String) (actor : AccessTokenPayload)
        → actor.organization_id ≡ org
        → (soft_delete p id actor w).0 ≡ ok tt
        → Wrote org w (soft_delete p id actor w).1

  Wrote-Bumped :
      (org : String) (w after : World p.Db p.Redis) → Wrote org w after → Bumped org w after
  Wrote-Bumped org w _ (created dto actor r e h) = rw (← e) (create-Bumped dto actor w r h)
  Wrote-Bumped org w _ (updated id dto actor r e h) = rw (← e) (update-Bumped id dto actor w r h)
  Wrote-Bumped org w _ (deleted id actor e h) = rw (← e) (soft_delete-Bumped id actor w h)

  -- A `create`, `update` or `softDelete` that succeeds makes the lists that were cached just before it
  -- unreachable. If Redis answers and held no negative version, and the organization's id holds no colon,
  -- then the version of the organization's lists is one more after it, and no list request of the
  -- organization after it, whoever sends it and whatever it asks for, looks at the key of a request just
  -- before it.
  pub write-new_keys :
      (laws : RedisLaws client) (org : String) (w after : World p.Db p.Redis)
      (raw raw' : Option String) (m n : ℕ) (redis' : p.Redis) (a b : AccessTokenPayload)
      (q r : ListTasksQueryDto)
      → Wrote org w after
      → client.get (org_tasks_list_version_key org) w.redis ≡ ok raw
      → version_of p raw ≡ pos m
      → client.incr (org_tasks_list_version_key org) w.redis ≡ (ok n, redis')
      → client.get (org_tasks_list_version_key org) redis' ≡ ok raw'
      → NoColon org
      → a.organization_id ≡ org
      → b.organization_id ≡ org
      → (current_version p org after ≡ pos (suc m))
        × (build_cache_key p a.organization_id (current_version p org w) a q
            ≢ build_cache_key p b.organization_id (current_version p org after) b r)
  unfolding current_version
  write-new_keys laws org w after raw raw' m n redis' a b q r wrote got before incr again no_colon
        ao bo =
      rw (Wrote-Bumped org w after wrote) (
        bump-new_keys p laws org w raw raw' m n redis' a b q r got before incr again no_colon ao bo)
