-- ===== src/Guards.antt =====
-- src/common/guards/roles.guard.ts, behind `@Auth(...)` of src/common/decorators/auth.decorator.ts:
-- the roles that a handler requires.
use nestjs_team_tasks_api.Prelude.{
  Bool, true, Option, none, some, List, [], ◌∷◌, has, if◌then◌else◌,
}
use nestjs_team_tasks_api.Entities.{UserRole, role_eq, AccessTokenPayload}
use nestjs_team_tasks_api.Exec.{Exec, Result, ok, throw, unauthorized, forbidden, lift, ◌>>◌}

-- `none` is a handler without `@Roles`, and a request without a user
unfoldable pub can_activate : Option (List UserRole) → Option AccessTokenPayload → Result Bool
can_activate none user = ok true
can_activate (some []) user = ok true
can_activate (some (r ∷ rs)) none = throw (unauthorized "User not authenticated")
can_activate (some (r ∷ rs)) (some user) =
    if has (r ∷ rs) user.role then ok true else throw (forbidden "Insufficient permissions")

-- a handler behind `@Auth(...roles)`, for the payload that the JWT strategy accepted
unfoldable pub authorized :
    {W A : Type 0} → List UserRole → (AccessTokenPayload → Exec W A) → AccessTokenPayload → Exec W A
unfolding can_activate
authorized roles handler user = do lift (can_activate (some roles) (some user)); handler user
