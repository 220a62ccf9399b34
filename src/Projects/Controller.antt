-- ===== src/Projects/Controller.antt =====
-- src/modules/projects/projects.controller.ts: the handlers behind `@Auth(OWNER, MANAGER)`.
use nestjs_team_tasks_api.Prelude.{String, List, [], ◌∷◌, ◌≡◌, ◌⊎◌, arith}
use nestjs_team_tasks_api.Entities.{AccessTokenPayload, UserRole, owner, manager}
use nestjs_team_tasks_api.Exec.{Exec, pure, ◌>>=◌, ◌>>◌}
use nestjs_team_tasks_api.Platform.{Platform, World}
use nestjs_team_tasks_api.Guards.{authorized}
use nestjs_team_tasks_api.Projects.Service
use nestjs_team_tasks_api.Projects.Service.{
  CreateProjectDto, UpdateProjectDto, ListProjectsQueryDto, ProjectResponseDto,
  ListProjectsResponseDto,
}

-- a request to the projects controller, after validation
pub data Request : Type 0 where
  create_project : CreateProjectDto → Request
  list_projects : ListProjectsQueryDto → Request
  get_project : String → Request
  update_project : String → UpdateProjectDto → Request
  delete_project : String → Request

-- the body of a response
pub data Reply : Type 0 where
  one : ProjectResponseDto → Reply
  many : ListProjectsResponseDto → Reply
  no_content : Reply

-- the roles of each `@Auth`
abbrev pub roles : List UserRole
roles = owner ∷ manager ∷ []

module _ (p : Platform) where
  unfoldable pub run_handler : Request → AccessTokenPayload → Exec (World p.Db p.Redis) Reply
  run_handler (create_project dto) actor = do
    project ← Service.create p dto actor
    pure (one project)
  run_handler (list_projects dto) actor = do
    projects ← Service.list p dto actor
    pure (many projects)
  run_handler (get_project id) actor = do project ← Service.get_one p id actor; pure (one project)
  run_handler (update_project id dto) actor = do
    project ← Service.update p id dto actor
    pure (one project)
  run_handler (delete_project id) actor = do Service.soft_delete p id actor; pure no_content

  unfoldable pub handle : Request → AccessTokenPayload → Exec (World p.Db p.Redis) Reply
  unfolding authorized run_handler
  handle request = authorized roles (run_handler request)

  -- the world after requests, each with the token's payload of who sent it
  unfoldable pub serve :
      List (AccessTokenPayload × Request) → World p.Db p.Redis → World p.Db p.Redis
  unfolding handle
  serve [] w = w
  serve ((user, request) ∷ rest) w = serve rest (handle request user w).1

  -- what a handler leaves of the world
  abbrev pub written : Request → AccessTokenPayload → World p.Db p.Redis → World p.Db p.Redis
  written (create_project dto) user w = (Service.create p dto user w).1
  written (list_projects dto) user w = w
  written (get_project id) user w = w
  written (update_project id dto) user w = (Service.update p id dto user w).1
  written (delete_project id) user w = (Service.soft_delete p id user w).1

  pub world-run_handler :
      (request : Request) (user : AccessTokenPayload) (w : World p.Db p.Redis)
      → (run_handler request user w).1 ≡ written request user w
  unfolding run_handler
  world-run_handler (create_project dto) user w = ground arith
  world-run_handler (list_projects dto) user w = unfold Service.list in (ground arith)
  world-run_handler (get_project id) user w = unfold Service.get_one in (ground arith)
  world-run_handler (update_project id dto) user w = ground arith
  world-run_handler (delete_project id) user w = ground arith

  -- a request that the guard refuses writes nothing
  pub world-handle :
      (request : Request) (user : AccessTokenPayload) (w : World p.Db p.Redis)
      → ((handle request user w).1 ≡ w)
        ⊎ ((handle request user w).1 ≡ (run_handler request user w).1)
  unfolding handle
  world-handle request user w = ground arith
