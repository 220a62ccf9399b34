-- ===== src/Tasks/Controller.antt =====
-- src/modules/tasks/tasks.controller.ts: the handlers behind `@Auth()`, which gives them the payload
-- of a valid access token as `req.user`.
use nestjs_team_tasks_api.Prelude.{String, List, [], ◌∷◌, ◌≡◌, arith}
use nestjs_team_tasks_api.Entities.{AccessTokenPayload}
use nestjs_team_tasks_api.Exec.{pure, ◌>>=◌, ◌>>◌}
use nestjs_team_tasks_api.Platform.{Platform, World}
use nestjs_team_tasks_api.Tasks.Dto.{
  CreateTaskDto, UpdateTaskDto, ListTasksQueryDto, TaskResponseDto, ListTasksResponseDto,
}
use nestjs_team_tasks_api.Tasks.Service
use nestjs_team_tasks_api.Tasks.Service.{Action}

-- a request to the tasks controller, after validation
pub data Request : Type 0 where
  create_task : CreateTaskDto → Request
  list_tasks : ListTasksQueryDto → Request
  get_task : String → Request
  update_task : String → UpdateTaskDto → Request
  delete_task : String → Request

-- the body of a response
pub data Reply : Type 0 where
  one : TaskResponseDto → Reply
  many : ListTasksResponseDto → Reply
  no_content : Reply

module _ (p : Platform) where
  unfoldable pub handle : Request → AccessTokenPayload → Action p Reply
  handle (create_task dto) user = do task ← Service.create p dto user; pure (one task)
  handle (list_tasks dto) user = do tasks ← Service.list p dto user; pure (many tasks)
  handle (get_task id) user = do task ← Service.get_one p id user; pure (one task)
  handle (update_task id dto) user = do task ← Service.update p id dto user; pure (one task)
  handle (delete_task id) user = do Service.soft_delete p id user; pure no_content

  -- the world after requests, each with the token's payload of who sent it
  unfoldable pub serve :
      List (AccessTokenPayload × Request) → World p.Db p.Redis → World p.Db p.Redis
  unfolding handle
  serve [] w = w
  serve ((user, request) ∷ rest) w = serve rest (handle request user w).1

  -- what a request leaves in the database
  abbrev pub written : Request → AccessTokenPayload → World p.Db p.Redis → World p.Db p.Redis
  written (create_task dto) user w = (Service.create p dto user w).1
  written (list_tasks dto) user w = (Service.list p dto user w).1
  written (get_task id) user w = (Service.get_one p id user w).1
  written (update_task id dto) user w = (Service.update p id dto user w).1
  written (delete_task id) user w = (Service.soft_delete p id user w).1

  pub world-handle :
      (request : Request) (user : AccessTokenPayload) (w : World p.Db p.Redis)
      → (handle request user w).1 ≡ written request user w
  unfolding handle
  world-handle (create_task dto) user w = ground arith
  world-handle (list_tasks dto) user w = ground arith
  world-handle (get_task id) user w = ground arith
  world-handle (update_task id dto) user w = ground arith
  world-handle (delete_task id) user w = ground arith
