-- ===== src/Organizations/Service.antt =====
-- src/modules/organizations/organizations.service.ts and organizations.controller.ts, with the
-- objects of src/modules/organizations/dto.
use nestjs_team_tasks_api.Prelude.{String, some, List, [], ◌∷◌}
use nestjs_team_tasks_api.Js.{Field, value}
use nestjs_team_tasks_api.Entities.{
  Organization, OrganizationObject, AccessTokenPayload, Date, UserRole, owner, load_organization,
}
use nestjs_team_tasks_api.Exec.{Exec, not_found, pure, or_throw, ◌>>=◌}
use nestjs_team_tasks_api.Platform.{Platform, World, Criteria, equal, is_null, any_row, query, run}
use nestjs_team_tasks_api.Guards.{authorized}

pub record UpdateOrganizationDto : Type 0 where
  pub name : String

pub record OrganizationResponseDto : Type 0 where
  pub id : Field String
  pub name : Field String
  pub owner_id : Field String
  pub created_at : Field Date
  pub updated_at : Field Date

abbrev pub to_dto : OrganizationObject → OrganizationResponseDto
to_dto org = record {
  id = org.id;
  name = org.name;
  owner_id = org.owner_id;
  created_at = org.created_at;
  updated_at = org.updated_at;
}

-- `{ id, deletedAt: IsNull() }`
abbrev pub live_id : String → Criteria
live_id id = record any_row { id = some (equal id); deleted_at = some is_null }

-- a request to the organizations controller, after validation
pub data Request : Type 0 where
  get_my_organization : Request
  update_my_organization : UpdateOrganizationDto → Request

-- the roles of each `@Auth`
abbrev pub roles : Request → List UserRole
roles get_my_organization = []
roles (update_my_organization dto) = owner ∷ []

module _ (p : Platform) where
  open p use {organizations}

  abbrev Action : Type 0 → Type 0
  Action A = Exec (World p.Db p.Redis) A

  unfoldable pub get_organization_or_throw : AccessTokenPayload → Action Organization
  get_organization_or_throw actor = do
    org ← query (organizations.find_one (live_id actor.organization_id))
    or_throw org (not_found "Organization not found")

  unfoldable pub get_me : AccessTokenPayload → Action OrganizationResponseDto
  unfolding get_organization_or_throw
  get_me actor = do org ← get_organization_or_throw actor; pure (to_dto (load_organization org))

  unfoldable pub update_me :
      UpdateOrganizationDto → AccessTokenPayload → Action OrganizationResponseDto
  unfolding get_organization_or_throw
  update_me dto actor = do
    org ← get_organization_or_throw actor
    saved ← run (organizations.save (record (load_organization org) { name = value dto.name }))
    pure (to_dto saved)

  unfoldable pub run_handler : Request → AccessTokenPayload → Action OrganizationResponseDto
  run_handler get_my_organization actor = get_me actor
  run_handler (update_my_organization dto) actor = update_me dto actor

  unfoldable pub handle : Request → AccessTokenPayload → Action OrganizationResponseDto
  unfolding authorized run_handler
  handle request = authorized (roles request) (run_handler request)
