-- ===== src/Reports/Scope.antt =====
-- Whose tasks a report counts.
use nestjs_team_tasks_api.Prelude.{
  String, Bool, true, false, ◌&&◌, ◌||◌, Option, none, some, List, [], ◌∷◌, ◌++◌, map, ◌≡◌, ◌≢◌,
  refl, ap, ◌∙◌, ◌⊎◌, inl, inr, arith, eq_iff, any, has, ◌==◌, string_eq, Bool-cases, any-keep,
  any-Permᴰ, any-or, any-eq, has-append, has-keep,
}
use nestjs_team_tasks_api.Entities.{User, UserRole, owner, manager, employee, role_eq, load_user}
use nestjs_team_tasks_api.Exec.{Failure, ok, throw}
use nestjs_team_tasks_api.Exec.Cases.{result_cases}
use nestjs_team_tasks_api.Platform.{Platform, World, Criteria, equal, is_null, matches_user}
use nestjs_team_tasks_api.Platform.Laws.{UserLaws}
use nestjs_team_tasks_api.Users.Service.{UserResponseDto, to_dto, find_all}
use nestjs_team_tasks_api.Users.Reach.{below}
use nestjs_team_tasks_api.Reports.Service.{TasksReportJobPayload}
use nestjs_team_tasks_api.Reports.Processor.{
  unique, ids_of, actor_of, of_role, team_ids, target_or_team,
}

abbrev pub is_none : {A : Type 0} → Option A → Bool
is_none none = true
is_none (some a) = false

has-unique : (xs : List String) (a : String) → has (unique xs) a ≡ has xs a
has-unique [] a = refl
has-unique (x ∷ xs) a = elim (Bool-cases (x == a)) [
  | inl e ↦ ground (arith, e)
  | inr e ↦
      let other : x ≢ a = ground (arith, e, eq_iff x a) in
      ground (arith, e, has-keep x a (unique xs) other, has-unique xs a)
]

has-ids_of :
    (users : List User) (a : String)
    → has (ids_of (map (λ u. to_dto (load_user u)) users)) a ≡ any (λ u. u.id == a) users
has-ids_of [] a = refl
has-ids_of (u ∷ users) a = ground (arith, has-ids_of users a)

-- the condition that `findAll` puts on the users of a role
abbrev live_of_role : UserRole → TasksReportJobPayload → Criteria
live_of_role role job = record (of_role role) {
  organization_id = some (equal job.organization_id);
  deleted_at = some is_null;
}

-- the live users whose tasks the requester may count
abbrev pub reports_to : TasksReportJobPayload → User → Bool
reports_to job u = is_none u.deleted_at && below (actor_of job) u

module _ (p : Platform) (users_laws : UserLaws p.users) where
  open p use {users}

  -- the requester, and the users that report to the requester
  abbrev pub in_team : TasksReportJobPayload → World p.Db p.Redis → String → Bool
  in_team job w id =
      job.requested_by_user_id == id || any (λ u. reports_to job u && u.id == id) (users.rows w.db)

  abbrev of_role_in : UserRole → TasksReportJobPayload → World p.Db p.Redis → String → Bool
  of_role_in role job w id =
      any (λ u. matches_user (live_of_role role job) u && u.id == id) (users.rows w.db)

  -- the ids that the users of a role have
  find_all_ids :
      (role : UserRole) (job : TasksReportJobPayload) (w : World p.Db p.Redis)
      → ((found : List UserResponseDto) × (find_all p (of_role role) (actor_of job) w
            ≡ (ok found, w))
          × ((id : String) → has (ids_of found) id ≡ of_role_in role job w id))
        ⊎ ((f : Failure) × (find_all p (of_role role) (actor_of job) w ≡ (throw f, w))
            × (users.find (live_of_role role job) w.db ≡ throw f))
  unfolding find_all
  find_all_ids role job w = elim (result_cases (users.find (live_of_role role job) w.db)) [
    | inl (found, e) ↦ inl (
      map (λ u. to_dto (load_user u)) found,
      ground (arith, e),
      λ id.
          has-ids_of found id
          ∙ any-Permᴰ (λ u. u.id == id) (users_laws.find_perm (live_of_role role job) w.db found e)
          ∙ any-keep (λ u. u.id == id) (matches_user (live_of_role role job)) (users.rows w.db),
    )
    | inr (f, e) ↦ inr (f, ground (arith, e), e)
  ]

  -- which query of the users failed
  abbrev pub UsersFailed : World p.Db p.Redis → Failure → Type 0
  UsersFailed w f = (c : Criteria) × (users.find c w.db ≡ throw f)

  -- the ids of an employee are its own alone
  nobody_below :
      (job : TasksReportJobPayload) (w : World p.Db p.Redis) (id : String) (rows : List User)
      → job.requested_by_role ≡ employee
      → any (λ u. reports_to job u && u.id == id) rows ≡ false
  nobody_below job w id [] e = refl
  nobody_below job w id (u ∷ rows) e = ground (arith, nobody_below job w id rows e, e)

  employees_below :
      (job : TasksReportJobPayload) (w : World p.Db p.Redis) (id : String)
      → job.requested_by_role ≡ manager
      → of_role_in employee job w id ≡ any (λ u. reports_to job u && u.id == id) (users.rows w.db)
  employees_below job w id e = any-eq _ _ (users.rows w.db) λ u. ground (arith, e)

  all_below :
      (job : TasksReportJobPayload) (w : World p.Db p.Redis) (id : String)
      → job.requested_by_role ≡ owner
      → (of_role_in manager job w id || of_role_in employee job w id)
        ≡ any (λ u. reports_to job u && u.id == id) (users.rows w.db)
  all_below job w id e =
      any-or (λ u. matches_user (live_of_role manager job) u && u.id == id)
        (λ u. matches_user (live_of_role employee job) u && u.id == id) (users.rows w.db)
      ∙ any-eq
          (λ u.
            (matches_user (live_of_role manager job) u && u.id == id)
            || (matches_user (live_of_role employee job) u && u.id == id))
          (λ u. reports_to job u && u.id == id) (users.rows w.db) (λ u. ground (arith, e))

  team_ids_cases :
      (role : UserRole) (job : TasksReportJobPayload) (w : World p.Db p.Redis)
      → job.requested_by_role ≡ role
      → ((ids : List String) × (team_ids p role job w ≡ (ok ids, w))
          × ((id : String) → has ids id ≡ in_team job w id))
        ⊎ ((f : Failure) × (team_ids p role job w ≡ (throw f, w)) × UsersFailed w f)
  unfolding team_ids
  team_ids_cases employee job w e = inl (
    job.requested_by_user_id ∷ [],
    refl,
    λ id. ground (arith, nobody_below job w id (users.rows w.db) e),
  )
  team_ids_cases manager job w e = elim (find_all_ids employee job w) [
    | inl (found, x, h) ↦ inl (
      unique (job.requested_by_user_id ∷ ids_of found),
      ground (arith, x),
      λ id.
          has-unique (job.requested_by_user_id ∷ ids_of found) id
          ∙ ap (◌||◌ (job.requested_by_user_id == id)) (h id ∙ employees_below job w id e),
    )
    | inr (f, x, y) ↦ inr (f, ground (arith, x), (live_of_role employee job, y))
  ]
  team_ids_cases owner job w e = elim (find_all_ids employee job w) [
    | inl (found, x, h) ↦ elim (find_all_ids manager job w) [
      | inl (above, x', h') ↦ inl (
        unique (job.requested_by_user_id ∷ ids_of above ++ ids_of found),
        ground (arith, x, x'),
        λ id.
            has-unique (job.requested_by_user_id ∷ ids_of above ++ ids_of found) id
            ∙ ap (◌||◌ (job.requested_by_user_id == id)) (
                has-append (ids_of above) (ids_of found) id
                ∙ ap (λ b. b || has (ids_of found) id) (h' id)
                ∙ ap (◌||◌ (of_role_in manager job w id)) (h id)
                ∙ all_below job w id e),
      )
      | inr (f, x', y) ↦ inr (f, ground (arith, x, x'), (live_of_role manager job, y))
    ]
    | inr (f, x, y) ↦ inr (f, ground (arith, x), (live_of_role employee job, y))
  ]

  -- whose tasks a job counts: those of its target, or of the requester's team
  abbrev pub counted_user :
      Option String → TasksReportJobPayload → World p.Db p.Redis → String → Bool
  counted_user (some target) job w id = target == id
  counted_user none job w id = in_team job w id

  pub target_or_team_cases :
      (target : Option String) (job : TasksReportJobPayload) (w : World p.Db p.Redis)
      → ((ids : List String) × (target_or_team p target job w ≡ (ok ids, w))
          × ((id : String) → has ids id ≡ counted_user target job w id))
        ⊎ ((f : Failure) × (target_or_team p target job w ≡ (throw f, w)) × UsersFailed w f)
  target_or_team_cases (some target) job w = inl (target ∷ [], refl, λ id. ground arith)
  target_or_team_cases none job w = team_ids_cases job.requested_by_role job w refl
