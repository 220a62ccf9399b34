-- ===== src/Projects/Service.antt =====
-- src/modules/projects/projects.service.ts: the operations on projects, with the objects of
-- src/modules/projects/dto.
use nestjs_team_tasks_api.Prelude.{
  ℕ, ◌-◌, ◌*◌, String, not, some, List, map, ◌==◌, string_eq, if◌then◌else◌,
}
use nestjs_team_tasks_api.Js.{Field, absent, value, spread}
use nestjs_team_tasks_api.Entities.{Project, ProjectObject, AccessTokenPayload, Date, load_project}
use nestjs_team_tasks_api.Exec.{
  Exec, conflict, not_found, pure, or_throw, throw_if, try_catch, ◌>>=◌, ◌>>◌,
}
use nestjs_team_tasks_api.Platform.{
  Platform, World, Criteria, FindOptions, equal, is_null, negated, created_at_desc, any_row, query,
  run,
}
use nestjs_team_tasks_api.Queries.{live_in_org, in_org, as_conflict, ceil_div}

pub record CreateProjectDto : Type 0 where
  pub name : String

pub record UpdateProjectDto : Type 0 where
  pub name : Field String

pub record ListProjectsQueryDto : Type 0 where
  pub current_page : ℕ
  pub items_per_page : ℕ

-- `CreateProjectResponseDto`, and `ListProjectResponseDto`, which has the same properties
pub record ProjectResponseDto : Type 0 where
  pub id : Field String
  pub name : Field String
  pub organization_id : Field String
  pub created_at : Field Date
  pub updated_at : Field Date

pub record ListProjectsResponseDto : Type 0 where
  pub items : List ProjectResponseDto
  pub total_items : ℕ
  pub total_pages : ℕ
  pub current_page : ℕ
  pub items_per_page : ℕ

-- the object that each operation returns of a project
abbrev pub to_response : ProjectObject → ProjectResponseDto
to_response project = record {
  id = project.id;
  name = project.name;
  organization_id = project.organization_id;
  created_at = project.created_at;
  updated_at = project.updated_at;
}

-- `{ name, organizationId, deletedAt: IsNull() }`
abbrev pub live_name : String → String → Criteria
live_name name organization_id = record any_row {
  name = some (equal name);
  organization_id = some (equal organization_id);
  deleted_at = some is_null;
}

-- `{ id: Not(id), name, organizationId, deletedAt: IsNull() }`
abbrev pub namesake : String → String → String → Criteria
namesake id name organization_id = record (live_name name organization_id) {
  id = some (negated (equal id));
}

-- the object that `create` saves
abbrev pub project_data : CreateProjectDto → String → ProjectObject
project_data dto organization_id = record {
  id = absent;
  name = value dto.name;
  organization_id = value organization_id;
  created_at = absent;
  updated_at = absent;
  deleted_at = absent;
}

-- `{ ...project, ...dto }`
abbrev pub merge : Project → UpdateProjectDto → ProjectObject
merge project dto = record (load_project project) { name = spread (value project.name) dto.name }

abbrev pub list_options : ListProjectsQueryDto → String → FindOptions
list_options dto organization_id = record {
  criteria = record any_row {
    organization_id = some (equal organization_id);
    deleted_at = some is_null;
  };
  skip = (dto.current_page - 1) * dto.items_per_page;
  take = dto.items_per_page;
  order = created_at_desc;
}

module _ (p : Platform) where
  open p use {projects}

  abbrev Action : Type 0 → Type 0
  Action A = Exec (World p.Db p.Redis) A

  -- `save`, the handler of its errors, and the response: the end of `create` and of `update`
  unfoldable pub save_named : ProjectObject → Action ProjectResponseDto
  unfolding as_conflict
  save_named object = do
    saved ← try_catch (run (projects.save object)) (as_conflict "Project already exists")
    pure (to_response saved)

  unfoldable pub create : CreateProjectDto → AccessTokenPayload → Action ProjectResponseDto
  unfolding save_named
  create dto actor = do
    project_exists ← query (projects.exists (live_name dto.name actor.organization_id))
    throw_if project_exists (conflict "Project already exists")
    save_named (projects.create (project_data dto actor.organization_id))

  unfoldable pub list : ListProjectsQueryDto → AccessTokenPayload → Action ListProjectsResponseDto
  list dto actor = do
    found ← query (projects.find_and_count (list_options dto actor.organization_id))
    pure (record {
      items = map (λ r. to_response (load_project r)) found.0;
      total_items = found.1;
      total_pages = ceil_div found.1 dto.items_per_page;
      current_page = dto.current_page;
      items_per_page = dto.items_per_page;
    })

  unfoldable pub get_by_id : String → AccessTokenPayload → Action Project
  get_by_id id actor = do
    project ← query (projects.find_one (live_in_org id actor.organization_id))
    or_throw project (not_found "Project not found")

  unfoldable pub get_one : String → AccessTokenPayload → Action ProjectResponseDto
  unfolding get_by_id
  get_one id actor = do project ← get_by_id id actor; pure (to_response (load_project project))

  -- `if (typeof dto.name === 'string' && dto.name !== project.name) { … }`
  abbrev pub check_name : Field String → Project → String → Action (Unit {0})
  check_name (value name) project organization_id =
      if not (name == project.name)
      then (do
        project_exists ← query (projects.exists (namesake project.id name organization_id))
        throw_if project_exists (conflict "Project already exists"))
      else pure tt
  check_name _ project organization_id = pure tt

  unfoldable pub update : String → UpdateProjectDto → AccessTokenPayload → Action ProjectResponseDto
  unfolding get_by_id save_named
  update id dto actor = do
    project ← get_by_id id actor
    check_name dto.name project actor.organization_id
    save_named (merge project dto)

  unfoldable pub soft_delete : String → AccessTokenPayload → Action (Unit {0})
  soft_delete id actor = do
    project ← query (projects.find_one (live_in_org id actor.organization_id))
    or_throw project (not_found "Project not found")
    run (projects.soft_delete (in_org id actor.organization_id))
