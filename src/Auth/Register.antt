-- ===== src/Auth/Register.antt =====
-- What registering leaves in the database.
use mathlib.Core.List.{Memᴰ}
use nestjs_team_tasks_api.Prelude.{String, false, none, ◌≡◌, ap, inl, inr, ◌⊎◌, arith, string_eq}
use nestjs_team_tasks_api.Entities.{User, Organization, load_user}
use nestjs_team_tasks_api.Exec.{Failure, Result, ok, throw, conflict}
use nestjs_team_tasks_api.Exec.Cases.{found_cases, result_cases}
use nestjs_team_tasks_api.Platform.{Platform, World, matches_user, matches_organization}
use nestjs_team_tasks_api.Platform.Laws.{UserLaws, OrganizationLaws, RedisLaws}
use nestjs_team_tasks_api.Users.Service.{live_email}
use nestjs_team_tasks_api.Auth.Service.{Jwt}
use nestjs_team_tasks_api.Auth.Accounts.{
  RegisterDto, Session, live_name, transaction, create_account, open_session, register,
}
use nestjs_team_tasks_api.Auth.Opening.{Opened, open_session_cases}
use nestjs_team_tasks_api.Auth.Login.{matches-live_email}
use nestjs_team_tasks_api.Auth.Account.{Apart, Added, matches-live_name, transaction_cases}

module _ (p : Platform) (users_laws : UserLaws p.users)
    (organizations_laws : OrganizationLaws p.organizations) (apart : Apart p)
    (dto : RegisterDto) where
  open p use {users, organizations}

  module _ (redis_laws : RedisLaws p.client) (jwt : Jwt) (commit : p.Db → Result (Unit {0}))
      (token_id : String) (w : World p.Db p.Redis) where
    -- why no account is made
    pub data Refusal : Failure → Type 0 where
      email_taken :
          (u : User)
          → Memᴰ u (users.rows w.db)
          → u.email ≡ dto.email
          → u.deleted_at ≡ none
          → Refusal (conflict "Email already exists")
      name_taken :
          (o : Organization)
          → Memᴰ o (organizations.rows w.db)
          → o.name ≡ dto.organization_name
          → o.deleted_at ≡ none
          → Refusal (conflict "Organization already exists")
      user_query : {f : Failure} → users.find_one (live_email dto.email) w.db ≡ throw f → Refusal f
      organization_query :
          {f : Failure}
          → organizations.find_one (live_name dto.organization_name) w.db ≡ throw f
          → Refusal f
      hashing : {f : Failure} → p.hash_password dto.password ≡ throw f → Refusal f
      transaction_failed :
          {f : Failure} (hash : String)
          → (transaction p commit (create_account p dto hash) w).0 ≡ throw f
          → Refusal f

    -- Registering is all or nothing in the database. Either it adds one live organization with the name
    -- asked for and one live owner with the e-mail and the hash of the password, who name each other, to
    -- a database in which no live user has the e-mail and no live organization the name; then a session
    -- is opened for the owner, or opening it throws. Or it throws and leaves the database and Redis as
    -- they were: the e-mail or the name is taken, a query or the hash fails, or the transaction fails,
    -- its commit included.
    pub register_cases :
        ((hash : String) × (o : Organization) × (u : User) × (p.hash_password dto.password
            ≡ ok hash)
          × ((v : User) → Memᴰ v (users.rows w.db) → matches_user (live_email dto.email) v ≡ false)
          × ((v : Organization)
              → Memᴰ v (organizations.rows w.db)
              → matches_organization (live_name dto.organization_name) v ≡ false)
          × Added p users_laws organizations_laws apart dto hash o u w.db
              (register p jwt commit token_id dto w).1.db
          × (((s : Session) × ((register p jwt commit token_id dto w).0 ≡ ok s)
                × Opened p redis_laws jwt token_id u s (register p jwt commit token_id dto w).1)
              ⊎ ((f : Failure) × ((register p jwt commit token_id dto w).0 ≡ throw f))))
        ⊎ ((f : Failure) × Refusal f × (register p jwt commit token_id dto w ≡ (throw f, w)))
    unfolding register
    register_cases = elim (found_cases (users.find_one (live_email dto.email) w.db)) [
      | inl (u, e) ↦
          let (stored, m) = users_laws.find_one_some _ w.db u e in
          let (same, live) = matches-live_email dto.email u m in
          inr (conflict "Email already exists", email_taken u stored same live, ground (arith, e))
      | inr (inr (f, e)) ↦ inr (f, user_query e, ground (arith, e))
      | inr (inl e) ↦
          elim (found_cases (organizations.find_one (live_name dto.organization_name) w.db)) [
            | inl (o, n) ↦
                let (stored, m) = organizations_laws.find_one_some _ w.db o n in
                let (same, live) = matches-live_name dto.organization_name o m in
                inr (
                  conflict "Organization already exists",
                  name_taken o stored same live,
                  ground (arith, e, n),
                )
            | inr (inr (f, n)) ↦ inr (f, organization_query n, ground (arith, e, n))
            | inr (inl n) ↦ elim (result_cases (p.hash_password dto.password)) [
              | inr (f, h) ↦ inr (f, hashing h, ground (arith, e, n, h))
              | inl (hash, h) ↦
                  elim (transaction_cases p users_laws organizations_laws apart dto commit hash w) [
                    | inr (f, t) ↦
                        inr
                          (f, transaction_failed hash (ap (λ x. x.0) t), ground (arith, e, n, h, t))
                    | inl (o, u, t, added) ↦
                        let after = (transaction p commit (create_account p dto hash) w).1 in
                        let (kept, opened) = open_session_cases p redis_laws jwt token_id u after in
                        let ends : register p jwt commit token_id dto w
                            ≡ open_session p jwt token_id (load_user u) after =
                          ground (arith, e, n, h, t) in
                        inl (
                          hash,
                          o,
                          u,
                          h,
                          (λ v m. users_laws.find_one_none _ w.db v e m),
                          (λ v m. organizations_laws.find_one_none _ w.db v n m),
                          rw (ends, kept) added,
                          rw ends opened,
                        )
                  ]
            ]
          ]
    ]
