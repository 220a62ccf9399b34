-- ===== src/Users/Controller.antt =====
-- src/modules/users/user.controller.ts: the handlers behind `@Auth(OWNER, MANAGER)`.
use nestjs_team_tasks_api.Prelude.{String, List, [], ◌∷◌}
use nestjs_team_tasks_api.Entities.{AccessTokenPayload, UserRole, owner, manager}
use nestjs_team_tasks_api.Exec.{Exec, pure, ◌>>=◌, ◌>>◌}
use nestjs_team_tasks_api.Platform.{Platform, World}
use nestjs_team_tasks_api.Guards.{authorized}
use nestjs_team_tasks_api.Users.Service
use nestjs_team_tasks_api.Users.Service.{
  CreateUserDto, ListUsersQueryDto, UserResponseDto, ListUsersResponseDto,
}

-- a request to the users controller, after validation
pub data Request : Type 0 where
  create_user : CreateUserDto → Request
  get_users : ListUsersQueryDto → Request
  delete_user : String → Request

-- the body of a response
pub data Reply : Type 0 where
  one : UserResponseDto → Reply
  many : ListUsersResponseDto → Reply
  no_content : Reply

-- the roles of each `@Auth`
abbrev pub roles : List UserRole
roles = owner ∷ manager ∷ []

module _ (p : Platform) where
  unfoldable pub run_handler : Request → AccessTokenPayload → Exec (World p.Db p.Redis) Reply
  run_handler (create_user dto) actor = do user ← Service.create p dto actor; pure (one user)
  run_handler (get_users dto) actor = do users ← Service.list p dto actor; pure (many users)
  run_handler (delete_user id) actor = do Service.soft_delete p id actor; pure no_content

  unfoldable pub handle : Request → AccessTokenPayload → Exec (World p.Db p.Redis) Reply
  unfolding authorized run_handler
  handle request = authorized roles (run_handler request)

  -- the world after requests, each with the token's payload of who sent it
  unfoldable pub serve :
      List (AccessTokenPayload × Request) → World p.Db p.Redis → World p.Db p.Redis
  unfolding handle
  serve [] w = w
  serve ((user, request) ∷ rest) w = serve rest (handle request user w).1
