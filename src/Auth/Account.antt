-- ===== src/Auth/Account.antt =====
-- The account that the transaction of `register` makes.
use nestjs_team_tasks_api.Prelude.{
  ℕ, String, true, none, some, List, [], ◌∷◌, map, ◌≡◌, ◌≢◌, refl, inl, inr, ◌⊎◌, arith, eq_iff,
  All, string_eq, if◌then◌else◌,
}
use nestjs_team_tasks_api.Js.{value}
use nestjs_team_tasks_api.Entities.{
  User, UserObject, Organization, OrganizationObject, Date, owner, load_user,
}
use nestjs_team_tasks_api.Exec.{Failure, Result, ok, throw}
use nestjs_team_tasks_api.Exec.Cases.{result_cases, saved_cases}
use nestjs_team_tasks_api.Platform.{
  Platform, World, Criteria, InsertedOrganization, InsertedUser, equal, any_row, organization_shape,
  matches_organization,
}
use nestjs_team_tasks_api.Platform.Laws.{UserLaws, OrganizationLaws}
use nestjs_team_tasks_api.Auth.Accounts.{
  RegisterDto, live_name, new_organization, new_owner, owned_by, transaction, create_account,
}

-- what the writes of one table leave in the other
pub record Apart (p : Platform) : Type 0 where
  pub users-save_organization :
      (o : OrganizationObject) (db : p.Db)
      → p.users.rows (p.organizations.save o db).1 ≡ p.users.rows db
  pub users-update_organization :
      (c : Criteria) (o : OrganizationObject) (db : p.Db)
      → p.users.rows (p.organizations.update c o db).1 ≡ p.users.rows db
  pub organizations-save_user :
      (o : UserObject) (db : p.Db)
      → p.organizations.rows (p.users.save o db).1 ≡ p.organizations.rows db

-- an account as `register` makes it: a live organization and its live owner, who name each other
pub record Account (dto : RegisterDto) (hash : String) (o : Organization) (u : User) : Type 0 where
  pub name : o.name ≡ dto.organization_name
  pub owner_id : o.owner_id ≡ some u.id
  pub live_organization : o.deleted_at ≡ none
  pub email : u.email ≡ dto.email
  pub password : u.password ≡ hash
  pub role : u.role ≡ owner
  pub organization_id : u.organization_id ≡ o.id
  pub live_user : u.deleted_at ≡ none

pub matches-live_name :
    (name : String) (o : Organization)
    → matches_organization (live_name name) o ≡ true
    → (o.name ≡ name) × (o.deleted_at ≡ none)
matches-live_name name o h = ground (arith, eq_iff o.name name)

module _ (p : Platform) (users_laws : UserLaws p.users)
    (organizations_laws : OrganizationLaws p.organizations) (apart : Apart p)
    (dto : RegisterDto) where
  open p use {users, organizations}

  -- the database after an account is added to it
  abbrev pub Added : String → Organization → User → p.Db → p.Db → Type 0
  Added hash o u before after =
      Account dto hash o u
      × (organizations.rows after ≡ o ∷ organizations.rows before)
      × (users.rows after ≡ u ∷ users.rows before)

  -- giving the new organization its owner changes no other
  owner_written :
      (o : Organization) (user_id : String) (now : Date) (rows : List Organization)
      → All (λ r. r.id ≢ o.id) rows
      → map
          (λ s.
            if matches_organization (record any_row { id = some (equal o.id) }) s
            then organization_shape.write now (owned_by (value user_id)) s
            else s)
          rows
        ≡ rows
  owner_written o user_id now [] other = refl
  owner_written o user_id now (r ∷ rows) (h, other) =
      ground (arith, h, owner_written o user_id now rows other, eq_iff r.id o.id)

  abbrev owned : Organization → String → Date → Organization
  owned o user_id now = organization_shape.write now (owned_by (value user_id)) o

  -- the rows of the organizations once the owner is set
  owner_set :
      (o : Organization) (user_id : String) (rows : List Organization) (n : ℕ) (db db' : p.Db)
      → organizations.rows db ≡ o ∷ rows
      → All (λ r. r.id ≢ o.id) rows
      → organizations.update
          (record any_row { id = some (equal o.id) })
          (owned_by (value user_id))
          db
        ≡ (ok n, db')
      → (now : Date) × (organizations.rows db' ≡ owned o user_id now ∷ rows)
  owner_set o user_id rows n db db' before other e =
      let (now, _, after) =
        organizations_laws.update_ok (record any_row { id = some (equal o.id) })
          (owned_by (value user_id)) db db' n e in
      (now, ground (arith, after, before, owner_written o user_id now rows other, eq_iff o.id o.id))

  owned-Account :
      (hash : String) (o : Organization) (u : User) (now : Date)
      → InsertedOrganization (new_organization dto) o
      → InsertedUser (new_owner dto hash (value o.id)) u
      → Account dto hash (owned o u.id now) u
  owned-Account hash o u now o_ins u_ins = record {
    name = ground (arith, o_ins.name);
    owner_id = refl;
    live_organization = o_ins.live;
    email = ground (arith, u_ins.email);
    password = ground (arith, u_ins.password);
    role = u_ins.role;
    organization_id = ground (arith, u_ins.organization_id);
    live_user = u_ins.live;
  }

  create_account_cases :
      (hash : String) (w : World p.Db p.Redis)
      → ((create_account p dto hash w).1.redis ≡ w.redis)
        × (((o : Organization) × (u : User) × ((create_account p dto hash w).0 ≡ ok (load_user u))
              × Added hash o u w.db (create_account p dto hash w).1.db)
            ⊎ ((f : Failure) × ((create_account p dto hash w).0 ≡ throw f)))
  unfolding create_account
  create_account_cases hash w =
      elim (saved_cases (organizations.save (organizations.create (new_organization dto)) w.db)) [
        | inr (f, db1, e) ↦ (ground (arith, e), inr (f, ground (arith, e)))
        | inl (oo, db1, e) ↦
            let (o, o_ins, o_loaded, o_rows, o_other) =
              organizations_laws.save_new (new_organization dto) oo w.db db1 refl e in
            elim (saved_cases (users.save (users.create (new_owner dto hash (value o.id))) db1)) [
              | inr (f, db2, e2) ↦
                  (ground (arith, e, o_loaded, e2), inr (f, ground (arith, e, o_loaded, e2)))
              | inl (uo, db2, e2) ↦
                  let (u, u_ins, u_loaded, u_rows, u_other) =
                    users_laws.save_new (new_owner dto hash (value o.id)) uo db1 db2 refl e2 in
                  elim (saved_cases (
                    organizations.update (record any_row { id = some (equal o.id) })
                      (owned_by (value u.id)) db2)) [
                        | inr (f, db3, e3) ↦ (
                          ground (arith, e, o_loaded, e2, u_loaded, e3),
                          inr (f, ground (arith, e, o_loaded, e2, u_loaded, e3)),
                        )
                        | inl (n, db3, e3) ↦
                            let kept : organizations.rows db2 ≡ o ∷ organizations.rows w.db =
                              ground (
                                arith,
                                e2,
                                apart.organizations-save_user
                                    (users.create (new_owner dto hash (value o.id))) db1,
                                o_rows,
                              ) in
                            let (now, set) =
                              owner_set o u.id (organizations.rows w.db) n db2 db3 kept o_other
                                e3 in
                            let users_after : users.rows db3 ≡ u ∷ users.rows w.db = ground (
                              arith,
                              e,
                              e3,
                              u_rows,
                              apart.users-update_organization
                                  (record any_row { id = some (equal o.id) })
                                  (owned_by (value u.id)) db2,
                              apart.users-save_organization
                                  (organizations.create (new_organization dto)) w.db,
                            ) in
                            let account = owned-Account hash o u now o_ins u_ins in
                            let ends : create_account p dto hash w
                                ≡ (ok (load_user u), record w { db = db3 }) =
                              ground (arith, e, o_loaded, e2, u_loaded, e3) in
                            rw ends
                              (refl, inl (owned o u.id now, u, refl, (account, set, users_after)))
                      ]
            ]
      ]

  -- `transaction` undoes what a failed body wrote
  pub transaction_cases :
      (commit : p.Db → Result (Unit {0})) (hash : String) (w : World p.Db p.Redis)
      → ((o : Organization) × (u : User) × ((transaction p commit (create_account p dto hash) w).0
            ≡ ok (load_user u))
          × Added hash o u w.db (transaction p commit (create_account p dto hash) w).1.db)
        ⊎ ((f : Failure) × (transaction p commit (create_account p dto hash) w ≡ (throw f, w)))
  transaction_cases commit hash w = elim (saved_cases (create_account p dto hash w)) [
    | inr (f, after, e) ↦
        let same : after.redis ≡ w.redis = ground (arith, e, (create_account_cases hash w).0) in
        inr (f, ground (arith, e, same))
    | inl (uo, after, e) ↦
        let (same, cases) = create_account_cases hash w in
        elim cases [
          | inr (f, x) ↦ absurd (ground (arith, e, x))
          | inl (o, u, x, (account, os, us)) ↦ elim (result_cases (commit after.db)) [
            | inl (_, c) ↦ inl (
              o,
              u,
              ground (arith, e, c, x),
              (account, ground (arith, e, c, os), ground (arith, e, c, us)),
            )
            | inr (f, c) ↦
                let kept : after.redis ≡ w.redis = ground (arith, e, same) in
                inr (f, ground (arith, e, c, kept))
          ]
        ]
  ]
