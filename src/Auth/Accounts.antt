-- ===== src/Auth/Accounts.antt =====
-- src/modules/auth/auth.service.ts: `register` and `login`, with the objects of src/modules/auth/dto.
-- bcrypt's comparison, the random id of a token and the commit of a transaction are parameters.
use nestjs_team_tasks_api.Prelude.{ℕ, String, Bool, true, false, not, Option, none, some}
use nestjs_team_tasks_api.Js.{Field, absent, value}
use nestjs_team_tasks_api.Entities.{
  UserRole, UserObject, OrganizationObject, owner, load_user, AccessTokenPayload,
}
use nestjs_team_tasks_api.Exec.{
  Exec, Result, ok, throw, conflict, unauthorized, other_error, pure, lift, or_throw, throw_if,
  ◌>>=◌, ◌>>◌,
}
use nestjs_team_tasks_api.Platform.{
  Platform, World, Criteria, equal, is_null, any_row, query, run, run_redis,
}
use nestjs_team_tasks_api.Users.Service.{live_email}
use nestjs_team_tasks_api.Auth.Service.{Jwt, refresh_session_key, or_unavailable}

pub record LoginDto : Type 0 where
  pub email : String
  pub password : String

pub record RegisterDto : Type 0 where
  pub organization_name : String
  pub email : String
  pub password : String

-- what `login` and `register` return
pub record Session : Type 0 where
  pub access_token : String
  pub refresh_token : String
  pub refresh_ttl_sec : ℕ

-- `{ name, deletedAt: IsNull() }`
abbrev pub live_name : String → Criteria
live_name name = record any_row { name = some (equal name); deleted_at = some is_null }

abbrev pub is_some : {A : Type 0} → Option A → Bool
is_some none = false
is_some (some a) = true

-- the payload of a user's access token; an object that was loaded or saved has its columns
abbrev pub access_payload : Field String → Field String → Field UserRole → Result AccessTokenPayload
access_payload (value id) (value organization_id) (value role) =
    ok (record { sub = id; organization_id = organization_id; role = role })
access_payload _ _ _ = throw (other_error "the user has no id, organization or role")

-- the argument of `update` that names one row by its id; TypeORM refuses an empty one
abbrev pub by_id : Field String → Result Criteria
by_id (value id) = ok (record any_row { id = some (equal id) })
by_id _ = throw (other_error "Empty criteria(s) are not allowed for the update method.")

abbrev pub new_organization : RegisterDto → OrganizationObject
new_organization dto = record {
  id = absent;
  name = value dto.organization_name;
  owner_id = absent;
  created_at = absent;
  updated_at = absent;
  deleted_at = absent;
}

abbrev pub new_owner : RegisterDto → String → Field String → UserObject
new_owner dto hashed_password organization_id = record {
  id = absent;
  email = value dto.email;
  password = value hashed_password;
  role = value owner;
  organization_id = organization_id;
  created_at = absent;
  updated_at = absent;
  deleted_at = absent;
}

-- `{ ownerId: user.id }`
abbrev pub owned_by : Field String → OrganizationObject
owned_by user_id = record {
  id = absent;
  name = absent;
  owner_id = user_id;
  created_at = absent;
  updated_at = absent;
  deleted_at = absent;
}

module _ (p : Platform) where
  open p use {users, organizations}

  abbrev Action : Type 0 → Type 0
  Action A = Exec (World p.Db p.Redis) A

  -- the end of `dataSource.transaction`: a failure, that of the commit too, undoes the body's writes
  abbrev pub committed :
      {A : Type 0} (before : p.Db)
      → Result (Unit {0})
      → A
      → World p.Db p.Redis
      → Result A × World p.Db p.Redis
  committed before (ok tt) a w = (ok a, w)
  committed before (throw e) a w = (throw e, record w { db = before })

  abbrev pub transaction_end :
      {A : Type 0}
      → (p.Db → Result (Unit {0}))
      → p.Db
      → Result A × World p.Db p.Redis
      → Result A × World p.Db p.Redis
  transaction_end commit before (ok a, w) = committed before (commit w.db) a w
  transaction_end commit before (throw e, w) = (throw e, record w { db = before })

  abbrev pub transaction : {A : Type 0} → (p.Db → Result (Unit {0})) → Action A → Action A
  transaction commit body w = transaction_end commit w.db (body w)

  -- the body of the transaction of `register`
  unfoldable pub create_account : RegisterDto → String → Action UserObject
  create_account dto hashed_password = do
    organization ← run (organizations.save (organizations.create (new_organization dto)))
    user ← run (users.save (users.create (new_owner dto hashed_password organization.id)))
    criteria ← lift (by_id organization.id)
    run (organizations.update criteria (owned_by user.id))
    pure user

  module _ (jwt : Jwt) where
    open p use {client}

    -- the tokens of a user, and the session that keeps the refresh token valid: the end of `register` and
    -- of `login`
    unfoldable pub open_session : String → UserObject → Action Session
    open_session token_id user = do
      config ← lift jwt.config
      payload ← lift (access_payload user.id user.organization_id user.role)
      access_token ←
          lift (jwt.service.sign jwt.now payload config.access_secret config.access_ttl_sec)
      refresh_token ← lift (
          jwt.service.sign_refresh jwt.now (record { sub = payload.sub; tid = token_id })
            config.refresh_secret config.refresh_ttl_sec)
      or_unavailable p jwt (
          run_redis
            (client.set_ex (refresh_session_key payload.sub token_id) "1" config.refresh_ttl_sec))
      pure (record {
        access_token = access_token;
        refresh_token = refresh_token;
        refresh_ttl_sec = config.refresh_ttl_sec;
      })

    unfoldable pub register : (p.Db → Result (Unit {0})) → String → RegisterDto → Action Session
    unfolding create_account open_session
    register commit token_id dto = do
      db_user ← query (users.find_one (live_email dto.email))
      throw_if (is_some db_user) (conflict "Email already exists")
      db_organization ← query (organizations.find_one (live_name dto.organization_name))
      throw_if (is_some db_organization) (conflict "Organization already exists")
      hashed_password ← lift (p.hash_password dto.password)
      user ← transaction commit (create_account dto hashed_password)
      open_session token_id user

    unfoldable pub login : (String → String → Result Bool) → String → LoginDto → Action Session
    unfolding open_session
    login compare_password token_id dto = do
      found ← query (users.find_one (live_email dto.email))
      user ← or_throw found (unauthorized "Invalid credentials")
      is_password_valid ← lift (compare_password dto.password user.password)
      throw_if (not is_password_valid) (unauthorized "Invalid credentials")
      open_session token_id (load_user user)
