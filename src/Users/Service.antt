-- ===== src/Users/Service.antt =====
-- src/modules/users/user.service.ts: the operations on users, with the objects of
-- src/modules/users/dto and the handlers of src/modules/users/user.controller.ts.
use nestjs_team_tasks_api.Prelude.{ℕ, ◌-◌, ◌*◌, String, not, some, List, map, ◌==◌, string_eq}
use nestjs_team_tasks_api.Js.{Field, absent, value}
use nestjs_team_tasks_api.Entities.{UserRole, User, UserObject, AccessTokenPayload, Date, load_user}
use nestjs_team_tasks_api.Exec.{
  Exec, conflict, forbidden, not_found, pure, lift, or_throw, throw_if, ◌>>=◌, ◌>>◌,
}
use nestjs_team_tasks_api.Platform.{
  Platform, World, Criteria, FindOptions, equal, is_null, created_at_desc, any_row, query, run,
}
use nestjs_team_tasks_api.Queries.{live_in_org, in_org, ceil_div}
use nestjs_team_tasks_api.Users.Policy.{is_allowed_to_create_user, is_allowed_to_delete_user}

pub record CreateUserDto : Type 0 where
  pub email : String
  pub password : String
  pub role : UserRole

pub record ListUsersQueryDto : Type 0 where
  pub current_page : ℕ
  pub items_per_page : ℕ

pub record UserResponseDto : Type 0 where
  pub id : Field String
  pub email : Field String
  pub role : Field UserRole
  pub organization_id : Field String
  pub created_at : Field Date
  pub updated_at : Field Date

pub record ListUsersResponseDto : Type 0 where
  pub items : List UserResponseDto
  pub total_items : ℕ
  pub total_pages : ℕ
  pub current_page : ℕ
  pub items_per_page : ℕ

abbrev pub to_dto : UserObject → UserResponseDto
to_dto user = record {
  id = user.id;
  email = user.email;
  role = user.role;
  organization_id = user.organization_id;
  created_at = user.created_at;
  updated_at = user.updated_at;
}

-- `{ email, deletedAt: IsNull() }`
abbrev pub live_email : String → Criteria
live_email email = record any_row { email = some (equal email); deleted_at = some is_null }

abbrev pub live_of_org : String → Criteria
live_of_org organization_id = record any_row {
  organization_id = some (equal organization_id);
  deleted_at = some is_null;
}

-- the object that `create` saves
abbrev pub user_data : CreateUserDto → String → String → UserObject
user_data dto hashed_password organization_id = record {
  id = absent;
  email = value dto.email;
  password = value hashed_password;
  role = value dto.role;
  organization_id = value organization_id;
  created_at = absent;
  updated_at = absent;
  deleted_at = absent;
}

abbrev pub list_options : ListUsersQueryDto → String → FindOptions
list_options dto organization_id = record {
  criteria = live_of_org organization_id;
  skip = (dto.current_page - 1) * dto.items_per_page;
  take = dto.items_per_page;
  order = created_at_desc;
}

module _ (p : Platform) where
  open p use {users}

  abbrev Action : Type 0 → Type 0
  Action A = Exec (World p.Db p.Redis) A

  unfoldable pub create : CreateUserDto → AccessTokenPayload → Action UserResponseDto
  create dto actor = do
    throw_if (not (is_allowed_to_create_user actor.role dto.role))
        (forbidden "You are not allowed to create a user")
    user_exists ← query (users.exists (live_email dto.email))
    throw_if user_exists (conflict "User already exists")
    hashed_password ← lift (p.hash_password dto.password)
    user ← run (users.save (users.create (user_data dto hashed_password actor.organization_id)))
    pure (to_dto user)

  unfoldable pub list : ListUsersQueryDto → AccessTokenPayload → Action ListUsersResponseDto
  list dto actor = do
    found ← query (users.find_and_count (list_options dto actor.organization_id))
    pure (record {
      items = map (λ u. to_dto (load_user u)) found.0;
      total_items = found.1;
      total_pages = ceil_div found.1 dto.items_per_page;
      current_page = dto.current_page;
      items_per_page = dto.items_per_page;
    })

  unfoldable pub get_user_or_throw : String → AccessTokenPayload → Action User
  get_user_or_throw id actor = do
    user ← query (users.find_one (live_in_org id actor.organization_id))
    or_throw user (not_found "User not found")

  unfoldable pub soft_delete : String → AccessTokenPayload → Action (Unit {0})
  unfolding get_user_or_throw
  soft_delete id actor = do
    user ← get_user_or_throw id actor
    throw_if (user.id == actor.sub) (forbidden "You are not allowed to delete yourself")
    throw_if (not (is_allowed_to_delete_user actor.role user.role))
        (forbidden "You are not allowed to delete a user")
    run (users.soft_delete (in_org id actor.organization_id))

  unfoldable pub get_by_id : String → AccessTokenPayload → Action UserResponseDto
  unfolding get_user_or_throw
  get_by_id id actor = do user ← get_user_or_throw id actor; pure (to_dto (load_user user))

  unfoldable pub find_all : Criteria → AccessTokenPayload → Action (List UserResponseDto)
  find_all where_ actor = do
    found ← query (
        users.find (record where_ {
          organization_id = some (equal actor.organization_id);
          deleted_at = some is_null;
        }))
    pure (map (λ u. to_dto (load_user u)) found)
