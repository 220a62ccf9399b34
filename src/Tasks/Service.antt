-- ===== src/Tasks/Service.antt =====
-- src/modules/tasks/tasks.service.ts: the operations on tasks. Each is an action on the database
-- and on Redis.
pub mod Effects
pub mod Footprint
pub mod Isolation
use nestjs_team_tasks_api.Prelude.{
  String, not, ◌&&◌, Option, none, some, List, map, ◌==◌, string_eq,
}
use nestjs_team_tasks_api.Js.{truthy_field}
use nestjs_team_tasks_api.Entities.{
  User, Project, Task, TaskObject, AccessTokenPayload, load_task, employee, role_eq,
}
use nestjs_team_tasks_api.Exec.{
  Exec, not_found, pure, lift, or_throw, throw_if, try_catch, ◌>>=◌, ◌>>◌,
}
use nestjs_team_tasks_api.Platform.{Platform, World, Criteria, equal, is_null, query, run}
use nestjs_team_tasks_api.Tasks.Dto.{
  CreateTaskDto, UpdateTaskDto, ListTasksQueryDto, TaskResponseDto, ListTasksResponseDto,
}
use nestjs_team_tasks_api.Tasks.Policy.{
  assert_can_read_task, assert_can_update_task, assert_can_delete_task, normalize_create_task_input,
  insufficient_permissions,
}
use nestjs_team_tasks_api.Tasks.Cache
use nestjs_team_tasks_api.Queries.{live_in_org, in_org, as_conflict}
use nestjs_team_tasks_api.Tasks.Objects.{to_dto, task_data, merge, list_options, list_response}

module _ (p : Platform) where
  open p use {tasks, projects, users}

  abbrev pub Action : Type 0 → Type 0
  Action A = Exec (World p.Db p.Redis) A

  unfoldable pub get_project_or_throw : String → String → Action Project
  get_project_or_throw project_id organization_id = do
    project ← query (projects.find_one (live_in_org project_id organization_id))
    or_throw project (not_found "Project not found")

  unfoldable pub get_assignee_or_throw : String → String → Action User
  get_assignee_or_throw assignee_id organization_id = do
    user ← query (users.find_one (live_in_org assignee_id organization_id))
    or_throw user (not_found "Assignee not found")

  unfoldable pub find_task_or_throw : String → String → Action Task
  find_task_or_throw id organization_id = do
    task ← query (tasks.find_one (live_in_org id organization_id))
    or_throw task (not_found "Task not found")

  -- `save`, then `bumpOrgListCache`, then `toDto`: the end of `create` and of `update`
  unfoldable pub save_and_bump : TaskObject → String → Action TaskResponseDto
  unfolding to_dto
  save_and_bump entity organization_id = do
    saved ← run (tasks.save entity)
    Cache.bump_org_list_cache p organization_id
    pure (to_dto saved)

  -- `softDelete`, then `bumpOrgListCache`: the end of `softDelete`
  unfoldable pub delete_and_bump : String → String → Action (Unit {0})
  delete_and_bump id organization_id = do
    run (tasks.soft_delete (in_org id organization_id))
    Cache.bump_org_list_cache p organization_id

  unfoldable pub create : CreateTaskDto → AccessTokenPayload → Action TaskResponseDto
  unfolding get_project_or_throw get_assignee_or_throw as_conflict
  create dto actor = do
    get_project_or_throw dto.project_id actor.organization_id
    normalized ← lift (normalize_create_task_input actor dto)
    get_assignee_or_throw normalized.assignee_id actor.organization_id
    throw_if (actor.role == employee && not (normalized.assignee_id == actor.sub))
        insufficient_permissions
    try_catch
        (save_and_bump (tasks.create (task_data dto normalized actor.organization_id))
          actor.organization_id)
        (as_conflict "Task already exists")

  -- the part of `list` after a miss
  unfoldable pub list_from_db :
      String → ListTasksQueryDto → AccessTokenPayload → Action ListTasksResponseDto
  list_from_db cache_key dto actor = do
    found ← query (tasks.find_and_count (list_options actor dto))
    Cache.set p cache_key (list_response dto found)
    pure (list_response dto found)

  abbrev pub answer :
      Option ListTasksResponseDto → Action ListTasksResponseDto → Action ListTasksResponseDto
  answer none miss = miss
  answer (some cached) miss = pure cached

  unfoldable pub list : ListTasksQueryDto → AccessTokenPayload → Action ListTasksResponseDto
  list dto actor = do
    version ← Cache.get_org_list_version p actor.organization_id
    let cache_key = Cache.build_cache_key p actor.organization_id version actor dto
    cached ← Cache.get p cache_key
    answer cached (list_from_db cache_key dto actor)

  unfoldable pub get_one : String → AccessTokenPayload → Action TaskResponseDto
  unfolding find_task_or_throw to_dto
  get_one id actor = do
    task ← find_task_or_throw id actor.organization_id
    lift (assert_can_read_task actor task)
    pure (to_dto (load_task task))

  -- `if (dto.assigneeId) await this.getAssigneeOrThrow(…)`
  abbrev check_assignee : Option String → String → Action (Unit {0})
  check_assignee none organization_id = pure tt
  check_assignee (some assignee_id) organization_id = do
    get_assignee_or_throw assignee_id organization_id
    pure tt

  unfoldable pub update : String → UpdateTaskDto → AccessTokenPayload → Action TaskResponseDto
  unfolding find_task_or_throw get_assignee_or_throw
  update id dto actor = do
    task ← find_task_or_throw id actor.organization_id
    lift (assert_can_update_task actor task dto)
    check_assignee (truthy_field dto.assignee_id) actor.organization_id
    save_and_bump (merge task dto) actor.organization_id

  unfoldable pub soft_delete : String → AccessTokenPayload → Action (Unit {0})
  unfolding find_task_or_throw
  soft_delete id actor = do
    task ← find_task_or_throw id actor.organization_id
    lift (assert_can_delete_task actor task)
    delete_and_bump id actor.organization_id

  unfoldable pub find_all : Criteria → AccessTokenPayload → Action (List TaskResponseDto)
  unfolding to_dto
  find_all where_ actor = do
    found ← query (
        tasks.find (record where_ {
          organization_id = some (equal actor.organization_id);
          deleted_at = some is_null;
        }))
    pure (map (λ t. to_dto (load_task t)) found)
