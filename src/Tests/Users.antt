-- ===== src/Tests/Users.antt =====
-- The theorems on users at concrete inputs.
use mathlib.Core.List.{Memᴰ}
use nestjs_team_tasks_api.Prelude.{String, none, List, [], ◌∷◌, ◌≡◌, ◌≢◌, ◌⊎◌, true, false, ltb}
use nestjs_team_tasks_api.Entities.{User, AccessTokenPayload, manager}
use nestjs_team_tasks_api.Exec.{Failure, ok, throw, not_found, forbidden, conflict}
use nestjs_team_tasks_api.Platform.{matches_user}
use nestjs_team_tasks_api.Queries.{live_in_org, in_org}
use nestjs_team_tasks_api.Users.Service.{CreateUserDto, live_email, create, soft_delete}
use nestjs_team_tasks_api.Users.Controller.{Request, create_user, delete_user, serve}
use nestjs_team_tasks_api.Users.Laws.{rank, create_cases, soft_delete_cases, Saves}
use nestjs_team_tasks_api.Users.Reach.{owners, owners-serve, of_org, users_of_org-serve}
use nestjs_team_tasks_api.Memory.Repository.{repository}
use nestjs_team_tasks_api.Memory.World.{platform}
use nestjs_team_tasks_api.Memory.World.Laws.{users_table-UserLaws}
use nestjs_team_tasks_api.Tests.Data.{ann, max, ann_user, world, acme-ne-beta}

abbrev hire : CreateUserDto
hire = record { email = "joe@acme.test"; password = "secret-word"; role = manager }

abbrev requests : List (AccessTokenPayload × Request)
requests = (ann, create_user hire) ∷ (ann, delete_user "eve") ∷ (max, delete_user "ann") ∷ []

owners-serve_example :
    owners (platform.users.rows (serve platform requests world).db) ≡ ann_user ∷ []
unfolding repository
owners-serve_example = owners-serve platform users_table-UserLaws requests world

users_of_org-serve_example :
    of_org "beta" (platform.users.rows (serve platform requests world).db) ≡ []
unfolding repository
users_of_org-serve_example =
    users_of_org-serve platform users_table-UserLaws "beta" requests world
      (acme-ne-beta, (acme-ne-beta, (acme-ne-beta, tt)))

create_cases_example :
    ((ltb (rank hire.role) (rank ann.role) ≡ false)
      × (create platform hire ann world
          ≡ (throw (forbidden "You are not allowed to create a user"), world)))
    ⊎ ((ltb (rank hire.role) (rank ann.role) ≡ true)
        × (((f : Failure) × ((platform.users.exists (live_email hire.email) world.db ≡ throw f)
                ⊎ (platform.hash_password hire.password ≡ throw f))
              × (create platform hire ann world ≡ (throw f, world)))
            ⊎ (((u : User) × Memᴰ u (platform.users.rows world.db)
                  × (matches_user (live_email hire.email) u ≡ true)
                  × (create platform hire ann world
                      ≡ (throw (conflict "User already exists"), world)))
                ⊎ (((u : User)
                      → Memᴰ u (platform.users.rows world.db)
                      → matches_user (live_email hire.email) u ≡ false)
                    × ((hash : String) × (platform.hash_password hire.password ≡ ok hash)
                        × Saves platform users_table-UserLaws ann hire hash world)))))
create_cases_example = create_cases platform users_table-UserLaws ann hire world

soft_delete_cases_example :
    ((u : User) × Memᴰ u (platform.users.rows world.db)
      × (u.id ≡ "eve")
      × (u.deleted_at ≡ none)
      × (u.organization_id ≡ ann.organization_id)
      × (((u.id ≡ ann.sub)
            × (soft_delete platform "eve" ann world
                ≡ (throw (forbidden "You are not allowed to delete yourself"), world)))
          ⊎ (((u.id ≢ ann.sub)
                × (ltb (rank u.role) (rank ann.role) ≡ false)
                × (soft_delete platform "eve" ann world
                    ≡ (throw (forbidden "You are not allowed to delete a user"), world)))
              ⊎ ((u.id ≢ ann.sub)
                  × (ltb (rank u.role) (rank ann.role) ≡ true)
                  × ((soft_delete platform "eve" ann world).0
                      ≡ (platform.users.soft_delete (in_org "eve" ann.organization_id) world.db).0)
                  × ((soft_delete platform "eve" ann world).1.db
                      ≡ (platform.users.soft_delete
                          (in_org "eve" ann.organization_id)
                          world.db).1)))))
    ⊎ ((((u : User)
            → Memᴰ u (platform.users.rows world.db)
            → matches_user (live_in_org "eve" ann.organization_id) u ≡ false)
          × (soft_delete platform "eve" ann world ≡ (throw (not_found "User not found"), world)))
        ⊎ ((f : Failure) × (platform.users.find_one (live_in_org "eve" ann.organization_id) world.db
              ≡ throw f)
            × (soft_delete platform "eve" ann world ≡ (throw f, world))))
soft_delete_cases_example = soft_delete_cases platform users_table-UserLaws ann "eve" world
