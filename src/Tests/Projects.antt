-- ===== src/Tests/Projects.antt =====
-- The theorems on projects and organizations at concrete inputs.
use mathlib.Core.List.{Memᴰ}
use nestjs_team_tasks_api.Prelude.{none, List, [], ◌∷◌, ◌≡◌, ◌≢◌, ◌⊎◌, ap, sym, ◌∙◌, false}
use nestjs_team_tasks_api.Js.{value}
use nestjs_team_tasks_api.Entities.{Organization, AccessTokenPayload, owner}
use nestjs_team_tasks_api.Exec.{Failure, throw, not_found, forbidden}
use nestjs_team_tasks_api.Platform.{matches_organization}
use nestjs_team_tasks_api.Projects.Controller.{Request, create_project, update_project, serve}
use nestjs_team_tasks_api.Projects.Reach.{of_org, projects_of_org-serve}
use nestjs_team_tasks_api.Projects.Names.{serve-UniqueNames}
use nestjs_team_tasks_api.Projects.Unique.{UniqueNames}
use nestjs_team_tasks_api.Organizations.Service.{
  UpdateOrganizationDto, live_id, update_me, update_my_organization, handle,
}
use nestjs_team_tasks_api.Organizations.Laws.{Renames, update_my_organization_cases}
use nestjs_team_tasks_api.Memory.Repository.{repository}
use nestjs_team_tasks_api.Memory.World.{platform}
use nestjs_team_tasks_api.Memory.World.Laws.{
  projects_table-ProjectLaws, organizations_table-OrganizationLaws,
}
use nestjs_team_tasks_api.Tests.Data.{ann, board, world, acme-ne-beta}

abbrev requests : List (AccessTokenPayload × Request)
requests =
    (ann, create_project (record { name = "Board" }))
    ∷ (ann, create_project (record { name = "Sales" }))
    ∷ (ann, update_project "p1" (record { name = value "Sales" }))
    ∷ []

projects_of_org-serve_example :
    of_org "beta" (platform.projects.rows (serve platform requests world).db) ≡ []
unfolding repository
projects_of_org-serve_example =
    projects_of_org-serve platform projects_table-ProjectLaws "beta" requests world
      (acme-ne-beta, (acme-ne-beta, (acme-ne-beta, tt)))

one-UniqueNames : UniqueNames (board ∷ [])
unfolding UniqueNames
one-UniqueNames a b (Memᴰ.head p) (Memᴰ.head q) la lb o n = ap (λ r. r.id) (p ∙ sym q)
one-UniqueNames a b (Memᴰ.head p) (Memᴰ.tail m) la lb o n = elim m [ ]
one-UniqueNames a b (Memᴰ.tail m) mb la lb o n = elim m [ ]

serve-UniqueNames_example : UniqueNames (platform.projects.rows (serve platform requests world).db)
unfolding repository
serve-UniqueNames_example =
    serve-UniqueNames platform projects_table-ProjectLaws requests world one-UniqueNames

abbrev rename : UpdateOrganizationDto
rename = record { name = "Acme 2" }

update_my_organization_cases_example :
    ((ann.role ≢ owner)
      × (handle platform (update_my_organization rename) ann world
          ≡ (throw (forbidden "Insufficient permissions"), world)))
    ⊎ ((ann.role ≡ owner)
        × (handle platform (update_my_organization rename) ann world
            ≡ update_me platform rename ann world)
        × (((org : Organization) × Memᴰ org (platform.organizations.rows world.db)
              × (org.id ≡ ann.organization_id)
              × (org.deleted_at ≡ none)
              × Renames platform organizations_table-OrganizationLaws ann world rename org)
            ⊎ ((((org : Organization)
                    → Memᴰ org (platform.organizations.rows world.db)
                    → matches_organization (live_id ann.organization_id) org ≡ false)
                  × (update_me platform rename ann world
                      ≡ (throw (not_found "Organization not found"), world)))
                ⊎ ((f : Failure) × (platform.organizations.find_one
                        (live_id ann.organization_id)
                        world.db
                      ≡ throw f)
                    × (update_me platform rename ann world ≡ (throw f, world))))))
update_my_organization_cases_example =
    update_my_organization_cases platform organizations_table-OrganizationLaws ann world rename
