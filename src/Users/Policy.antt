-- ===== src/Users/Policy.antt =====
-- src/modules/users/user.policy.ts: who may create and delete whom.
use nestjs_team_tasks_api.Prelude.{Bool, List, [], ◌∷◌, ◌||◌, false, has}
use nestjs_team_tasks_api.Entities.{UserRole, owner, manager, employee, role_eq}

abbrev pub allowed_create_user_roles : UserRole → List UserRole
allowed_create_user_roles owner = manager ∷ employee ∷ []
allowed_create_user_roles manager = employee ∷ []
allowed_create_user_roles employee = []

abbrev pub allowed_delete_user_roles : UserRole → List UserRole
allowed_delete_user_roles owner = manager ∷ employee ∷ []
allowed_delete_user_roles manager = employee ∷ []
allowed_delete_user_roles employee = []

unfoldable pub is_allowed_to_create_user : UserRole → UserRole → Bool
is_allowed_to_create_user actor_role user_role =
    has (allowed_create_user_roles actor_role) user_role || false

unfoldable pub is_allowed_to_delete_user : UserRole → UserRole → Bool
is_allowed_to_delete_user actor_role user_role =
    has (allowed_delete_user_roles actor_role) user_role || false
