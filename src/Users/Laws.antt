-- ===== src/Users/Laws.antt =====
-- What the users service and its controller do.
use mathlib.Core.List.{Memᴰ}
use nestjs_team_tasks_api.Prelude.{
  ℕ, String, true, false, none, ◌∷◌, ◌≡◌, ◌≢◌, ◌⊎◌, inl, inr, refl, arith, eq_iff, ltb, Bool-cases,
  string_eq,
}
use nestjs_team_tasks_api.Entities.{
  UserRole, owner, manager, employee, role_eq, User, AccessTokenPayload, load_user,
}
use nestjs_team_tasks_api.Exec.{Failure, ok, throw, not_found, forbidden, conflict}
use nestjs_team_tasks_api.Exec.Cases.{found_cases, saved_cases, result_cases}
use nestjs_team_tasks_api.Platform.{Platform, World, matches_user}
use nestjs_team_tasks_api.Platform.Laws.{UserLaws}
use nestjs_team_tasks_api.Queries.{live_in_org, in_org}
use nestjs_team_tasks_api.Queries.Laws.{user-live_in_org}
use nestjs_team_tasks_api.Users.Policy.{is_allowed_to_create_user, is_allowed_to_delete_user}
use nestjs_team_tasks_api.Users.Service.{
  CreateUserDto, user_data, live_email, create, soft_delete, to_dto,
}

abbrev pub rank : UserRole → ℕ
rank owner = 2
rank manager = 1
rank employee = 0

-- A role may create, and may delete, exactly the roles of a lower rank.
pub allowed_by_rank :
    (actor_role user_role : UserRole)
    → (is_allowed_to_create_user actor_role user_role ≡ ltb (rank user_role) (rank actor_role))
      × (is_allowed_to_delete_user actor_role user_role ≡ ltb (rank user_role) (rank actor_role))
unfolding is_allowed_to_create_user is_allowed_to_delete_user
allowed_by_rank actor_role user_role = ground arith

module _ (p : Platform) (laws : UserLaws p.users) (actor : AccessTokenPayload) where
  open p use {users}

  -- `soft_delete` throws `not_found` if the organization has no live user with the id, `forbidden` if
  -- it is the actor or is not below the actor in rank, and then leaves the database as it is. Else it
  -- is the repository's `softDelete` of that user.
  pub soft_delete_cases :
      (id : String) (w : World p.Db p.Redis)
      → ((u : User) × Memᴰ u (users.rows w.db)
          × (u.id ≡ id)
          × (u.deleted_at ≡ none)
          × (u.organization_id ≡ actor.organization_id)
          × (((u.id ≡ actor.sub)
                × (soft_delete p id actor w
                    ≡ (throw (forbidden "You are not allowed to delete yourself"), w)))
              ⊎ (((u.id ≢ actor.sub)
                    × (ltb (rank u.role) (rank actor.role) ≡ false)
                    × (soft_delete p id actor w
                        ≡ (throw (forbidden "You are not allowed to delete a user"), w)))
                  ⊎ ((u.id ≢ actor.sub)
                      × (ltb (rank u.role) (rank actor.role) ≡ true)
                      × ((soft_delete p id actor w).0
                          ≡ (users.soft_delete (in_org id actor.organization_id) w.db).0)
                      × ((soft_delete p id actor w).1.db
                          ≡ (users.soft_delete (in_org id actor.organization_id) w.db).1)))))
        ⊎ ((((u : User)
                → Memᴰ u (users.rows w.db)
                → matches_user (live_in_org id actor.organization_id) u ≡ false)
              × (soft_delete p id actor w ≡ (throw (not_found "User not found"), w)))
            ⊎ ((f : Failure) × (users.find_one (live_in_org id actor.organization_id) w.db
                  ≡ throw f)
                × (soft_delete p id actor w ≡ (throw f, w))))
  unfolding soft_delete
  soft_delete_cases id w =
      elim (found_cases (users.find_one (live_in_org id actor.organization_id) w.db)) [
        | inl (u, e) ↦
            let (stored, m) = laws.find_one_some _ w.db u e in
            let (same, org, live) = user-live_in_org id actor.organization_id u m in
            inl (
              u,
              stored,
              same,
              live,
              org,
              ground (arith, e, allowed_by_rank actor.role u.role, eq_iff u.id actor.sub),
            )
        | inr (inl e) ↦ inr (inl ((λ u m. laws.find_one_none _ w.db u e m), ground (arith, e)))
        | inr (inr (f, e)) ↦ inr (inr (f, e, ground (arith, e)))
      ]

  -- the user that `create` makes, with the hash of the password
  pub record Created (dto : CreateUserDto) (hash : String) (u : User) : Type 0 where
    pub email : u.email ≡ dto.email
    pub password : u.password ≡ hash
    pub role : u.role ≡ dto.role
    pub organization_id : u.organization_id ≡ actor.organization_id
    pub live : u.deleted_at ≡ none

  -- how `create` ends, once the email is known to be free and the password is hashed
  abbrev pub Saves : CreateUserDto → String → World p.Db p.Redis → Type 0
  Saves dto hash w =
      ((u : User) × Created dto hash u
        × ((create p dto actor w).0 ≡ ok (to_dto (load_user u)))
        × (users.rows (create p dto actor w).1.db ≡ u ∷ users.rows w.db))
      ⊎ ((f : Failure) × ((users.save (users.create (user_data dto hash actor.organization_id))
              w.db).0
            ≡ throw f)
          × ((create p dto actor w).0 ≡ throw f)
          × (users.rows (create p dto actor w).1.db ≡ users.rows w.db))

  saves :
      (dto : CreateUserDto) (hash : String) (w : World p.Db p.Redis)
      → is_allowed_to_create_user actor.role dto.role ≡ true
      → users.exists (live_email dto.email) w.db ≡ ok false
      → p.hash_password dto.password ≡ ok hash
      → Saves dto hash w
  unfolding create
  saves dto hash w allowed free hashed =
      elim (saved_cases
        (users.save (users.create (user_data dto hash actor.organization_id)) w.db)) [
          | inl (o', db', e) ↦
              let (u, ins, loaded, rows, _) = laws.save_new _ o' w.db db' refl e in
              let made : Created dto hash u = record {
                email = ground (arith, ins.email);
                password = ground (arith, ins.password);
                role = ground (arith, ins.role);
                organization_id = ground (arith, ins.organization_id);
                live = ins.live;
              } in
              inl (
                u,
                made,
                ground (arith, allowed, free, hashed, e, loaded),
                ground (arith, allowed, free, hashed, e, rows),
              )
          | inr (f, db', e) ↦
              let rows = laws.save_throws _ w.db db' f e in
              inr (
                f,
                ground (arith, e),
                ground (arith, allowed, free, hashed, e),
                ground (arith, allowed, free, hashed, e, rows),
              )
        ]

  -- `create` throws `forbidden` unless the new role is below the actor's, then `conflict` if a live
  -- user has the email, and leaves the world as it is. Else, once the password is hashed, it adds
  -- exactly the user of the request, in the actor's organization, and returns it, unless the database
  -- refuses the row, whose error it throws on.
  pub create_cases :
      (dto : CreateUserDto) (w : World p.Db p.Redis)
      → ((ltb (rank dto.role) (rank actor.role) ≡ false)
          × (create p dto actor w ≡ (throw (forbidden "You are not allowed to create a user"), w)))
        ⊎ ((ltb (rank dto.role) (rank actor.role) ≡ true)
            × (((f : Failure) × ((users.exists (live_email dto.email) w.db ≡ throw f)
                    ⊎ (p.hash_password dto.password ≡ throw f))
                  × (create p dto actor w ≡ (throw f, w)))
                ⊎ (((u : User) × Memᴰ u (users.rows w.db)
                      × (matches_user (live_email dto.email) u ≡ true)
                      × (create p dto actor w ≡ (throw (conflict "User already exists"), w)))
                    ⊎ (((u : User)
                          → Memᴰ u (users.rows w.db)
                          → matches_user (live_email dto.email) u ≡ false)
                        × ((hash : String) × (p.hash_password dto.password ≡ ok hash)
                            × Saves dto hash w)))))
  unfolding create
  create_cases dto w = elim (Bool-cases (is_allowed_to_create_user actor.role dto.role)) [
    | inr no_ ↦ inl (ground (arith, no_, allowed_by_rank actor.role dto.role))
    | inl allowed ↦
        let lower : ltb (rank dto.role) (rank actor.role) ≡ true =
          ground (arith, allowed, allowed_by_rank actor.role dto.role) in
        elim (result_cases (users.exists (live_email dto.email) w.db)) [
          | inr (f, e) ↦ inr (lower, inl (f, inl e, ground (arith, allowed, e)))
          | inl (true, e) ↦
              let (u, m, live) = laws.exists_true _ w.db e in
              inr (lower, inr (inl (u, m, live, ground (arith, allowed, e))))
          | inl (false, e) ↦ elim (result_cases (p.hash_password dto.password)) [
            | inr (f, h) ↦ inr (lower, inl (f, inr h, ground (arith, allowed, e, h)))
            | inl (hash, h) ↦ inr (
              lower,
              inr (
                  inr (
                    (λ u m. laws.exists_false _ w.db u e m),
                    (hash, h, saves dto hash w allowed e h),
                  )),
            )
          ]
        ]
  ]
