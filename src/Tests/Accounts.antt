-- ===== src/Tests/Accounts.antt =====
-- The theorems on accounts and logins at concrete inputs.
use mathlib.Core.List.{Memᴰ}
use nestjs_team_tasks_api.Prelude.{
  ◌+◌, ◌<◌, String, Bool, true, false, ◌≡◌, ◌≢◌, refl, ◌⊎◌, arith, ◌==◌, string_eq,
}
use nestjs_team_tasks_api.Entities.{User, Organization}
use nestjs_team_tasks_api.Exec.{Failure, Result, ok, throw, unauthorized}
use nestjs_team_tasks_api.Platform.{Criteria, matches_user, matches_organization}
use nestjs_team_tasks_api.Users.Service.{live_email}
use nestjs_team_tasks_api.Auth.Service.{JwtConfig, at, refresh}
use nestjs_team_tasks_api.Auth.Accounts.{
  LoginDto, RegisterDto, Session, live_name, open_session, login, register,
}
use nestjs_team_tasks_api.Auth.Opening.{identity, Opened}
use nestjs_team_tasks_api.Auth.Login.{Checked, login_cases, login-refresh}
use nestjs_team_tasks_api.Auth.Account.{Apart, Added}
use nestjs_team_tasks_api.Auth.Register.{Refusal, register_cases}
use nestjs_team_tasks_api.Memory.Repository.{repository}
use nestjs_team_tasks_api.Memory.World.{platform, Db, Redis}
use nestjs_team_tasks_api.Memory.World.Laws.{
  redis_client-RedisLaws, users_table-UserLaws, organizations_table-OrganizationLaws,
}
use nestjs_team_tasks_api.Tests.Data.{world}
use nestjs_team_tasks_api.Tests.Auth.{jwt, jwt_service-JwtLaws, jwt_signs}

-- the hash of a password is the password
abbrev pub compare_password : String → String → Result Bool
compare_password password hash = ok (password == hash)

abbrev pub ann_login : LoginDto
ann_login = record { email = "ann@acme.test"; password = "hash" }

abbrev pub ann_session : Session
ann_session = record { access_token = "ann"; refresh_token = "token"; refresh_ttl_sec = 604800 }

login_run : (login platform jwt compare_password "s1" ann_login world).0 ≡ ok ann_session
unfolding login open_session repository
login_run = refl

pub users_answer : (c : Criteria) (f : Failure) → platform.users.find_one c world.db ≢ throw f
unfolding repository
users_answer c f h = ground (arith, h)

pub redis_answers :
    (k : String) (redis : Redis) (f : Failure) → platform.client.exists k redis ≢ throw f
redis_answers k redis f h = ground (arith, h)

login_cases_example :
    ((login platform jwt compare_password "s1" ann_login world).1.db ≡ world.db)
    × (((u : User) × Checked platform redis_client-RedisLaws jwt "s1" users_table-UserLaws
            compare_password ann_login world
            (ok true)
            u
          × (((s : Session) × ((login platform jwt compare_password "s1" ann_login world).0 ≡ ok s)
                × Opened platform redis_client-RedisLaws jwt "s1" u s
                    (login platform jwt compare_password "s1" ann_login world).1)
              ⊎ ((f : Failure) × ((login platform jwt compare_password "s1" ann_login world).0
                    ≡ throw f))))
        ⊎ (((((u : User)
                  → Memᴰ u (platform.users.rows world.db)
                  → matches_user (live_email ann_login.email) u ≡ false)
                ⊎ ((u : User) × Checked platform redis_client-RedisLaws jwt "s1"
                      users_table-UserLaws compare_password ann_login world
                      (ok false)
                      u))
              × (login platform jwt compare_password "s1" ann_login world
                  ≡ (throw (unauthorized "Invalid credentials"), world)))
            ⊎ ((f : Failure) × ((platform.users.find_one (live_email ann_login.email) world.db
                    ≡ throw f)
                  ⊎ ((u : User) × Checked platform redis_client-RedisLaws jwt "s1"
                        users_table-UserLaws compare_password ann_login world
                        (throw f)
                        u))
                × (login platform jwt compare_password "s1" ann_login world ≡ (throw f, world)))))
login_cases_example =
    login_cases platform redis_client-RedisLaws jwt "s1" users_table-UserLaws compare_password
      ann_login world

before_end : 200 < 100 + ann_session.refresh_ttl_sec
before_end = omega arith

login-refresh_example :
    (u : User) × Checked platform redis_client-RedisLaws jwt "s1" users_table-UserLaws
      compare_password ann_login world
      (ok true)
      u
    × (config : JwtConfig) × (jwt.config ≡ ok config)
    × (access : String) × (jwt.service.sign 200
          (identity u)
          config.access_secret
          config.access_ttl_sec
        ≡ ok access)
    × (refresh platform
          (at 200 jwt)
          ann_session.refresh_token
          (login platform jwt compare_password "s1" ann_login world).1
        ≡ (ok access, (login platform jwt compare_password "s1" ann_login world).1))
login-refresh_example =
    login-refresh platform redis_client-RedisLaws jwt "s1" users_table-UserLaws compare_password
      ann_login world ann_session 200 jwt_service-JwtLaws jwt_signs users_answer redis_answers
      (omega arith) before_end login_run

pub tables_apart : Apart platform
unfolding repository
tables_apart = record {
  users-save_organization = λ o db. refl;
  users-update_organization = λ c o db. refl;
  organizations-save_user = λ o db. refl;
}

abbrev pub signup : RegisterDto
signup = record { organization_name = "Gamma"; email = "gil@gamma.test"; password = "secret99" }

abbrev pub commit : Db → Result (Unit {0})
commit db = ok tt

register_cases_example :
    ((hash : String) × (o : Organization) × (u : User) × (platform.hash_password signup.password
        ≡ ok hash)
      × ((v : User)
          → Memᴰ v (platform.users.rows world.db)
          → matches_user (live_email signup.email) v ≡ false)
      × ((v : Organization)
          → Memᴰ v (platform.organizations.rows world.db)
          → matches_organization (live_name signup.organization_name) v ≡ false)
      × Added platform users_table-UserLaws organizations_table-OrganizationLaws tables_apart signup
          hash o u world.db
          (register platform jwt commit "s1" signup world).1.db
      × (((s : Session) × ((register platform jwt commit "s1" signup world).0 ≡ ok s)
            × Opened platform redis_client-RedisLaws jwt "s1" u s
                (register platform jwt commit "s1" signup world).1)
          ⊎ ((f : Failure) × ((register platform jwt commit "s1" signup world).0 ≡ throw f))))
    ⊎ ((f : Failure) × Refusal platform users_table-UserLaws organizations_table-OrganizationLaws
          tables_apart signup redis_client-RedisLaws jwt commit "s1" world f
        × (register platform jwt commit "s1" signup world ≡ (throw f, world)))
register_cases_example =
    register_cases platform users_table-UserLaws organizations_table-OrganizationLaws tables_apart
      signup redis_client-RedisLaws jwt commit "s1" world
