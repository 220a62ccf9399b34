-- ===== src/Reports/Laws.antt =====
-- Which reports are queued.
use mathlib.Core.List.{Memᴰ}
use nestjs_team_tasks_api.Prelude.{
  String, true, false, Option, none, some, ◌≡◌, ◌≢◌, ◌⊎◌, ◌↔◌, Bool-cases, inl, inr, refl, arith,
  eq_iff, ltb, string_eq,
}
use nestjs_team_tasks_api.Js.{Field, absent, truthy_field, value}
use nestjs_team_tasks_api.Entities.{User, UserRole, AccessTokenPayload, role_eq}
use nestjs_team_tasks_api.Exec.{Failure, Result, ok, throw, not_found, forbidden}
use nestjs_team_tasks_api.Exec.Cases.{found_cases, saved_cases}
use nestjs_team_tasks_api.Platform.{Platform, World, matches_user}
use nestjs_team_tasks_api.Platform.Laws.{UserLaws}
use nestjs_team_tasks_api.Queries.{live_in_org}
use nestjs_team_tasks_api.Queries.Laws.{user-live_in_org}
use nestjs_team_tasks_api.Users.Service.{get_by_id, get_user_or_throw}
use nestjs_team_tasks_api.Users.Laws.{rank}
use nestjs_team_tasks_api.Reports.Service.{
  CreateTaskReportDto, TasksReportJobPayload, processing, can_request_task_report_for_target,
  target_part, payload_of, check_target, create_task_report,
}

can_request_iff :
    (actor_role target_role : UserRole) (actor_id target_id : String)
    → (can_request_task_report_for_target actor_role actor_id target_id (value target_role) ≡ true)
      ↔ ((actor_id ≡ target_id) ⊎ (ltb (rank target_role) (rank actor_role) ≡ true))
unfolding can_request_task_report_for_target
can_request_iff actor_role target_role actor_id target_id =
    ground (arith, eq_iff actor_id target_id)

module _ (p : Platform) (laws : UserLaws p.users)
    (add : String → TasksReportJobPayload → p.Redis → Result String × p.Redis)
    (actor : AccessTokenPayload) (w : World p.Db p.Redis) where
  open p use {users}

  -- the target may be asked for: the actor, or a live user of the organization of a lower rank
  abbrev pub Permitted : Option String → Type 0
  Permitted none = Unit {0}
  Permitted (some id) =
      (u : User) × Memᴰ u (users.rows w.db)
      × (u.id ≡ id)
      × (u.deleted_at ≡ none)
      × (u.organization_id ≡ actor.organization_id)
      × ((actor.sub ≡ id) ⊎ (ltb (rank u.role) (rank actor.role) ≡ true))

  -- why a target is refused
  abbrev pub Refused : Option String → Failure → Type 0
  Refused none f = ⊥
  Refused (some id) f =
      ((u : User) × Memᴰ u (users.rows w.db)
        × (u.id ≡ id)
        × (u.organization_id ≡ actor.organization_id)
        × (actor.sub ≢ id)
        × (ltb (rank u.role) (rank actor.role) ≡ false)
        × (f ≡ forbidden "Insufficient permissions"))
      ⊎ ((((u : User)
              → Memᴰ u (users.rows w.db)
              → matches_user (live_in_org id actor.organization_id) u ≡ false)
            × (f ≡ not_found "User not found"))
          ⊎ (users.find_one (live_in_org id actor.organization_id) w.db ≡ throw f))

  check_target_cases :
      (target : Option String)
      → (Permitted target × (check_target p add target actor w ≡ (ok tt, w)))
        ⊎ ((f : Failure) × Refused target f × (check_target p add target actor w ≡ (throw f, w)))
  unfolding check_target get_by_id get_user_or_throw
  check_target_cases none = inl (tt, refl)
  check_target_cases (some id) =
      elim (found_cases (users.find_one (live_in_org id actor.organization_id) w.db)) [
        | inl (u, e) ↦
            let (stored, m) = laws.find_one_some _ w.db u e in
            let (same, org, live) = user-live_in_org id actor.organization_id u m in
            let allowed_iff = can_request_iff actor.role u.role actor.sub id in
            elim (Bool-cases
              (can_request_task_report_for_target actor.role actor.sub id (value u.role))) [
                | inl allowed ↦ inl (
                  (u, stored, same, live, org, allowed_iff.0 allowed),
                  ground (arith, e, allowed),
                )
                | inr refused ↦
                    let others : (actor.sub ≢ id) × (ltb (rank u.role) (rank actor.role) ≡ false) =
                      ground (arith, allowed_iff, refused) in
                    inr (
                      forbidden "Insufficient permissions",
                      inl (u, stored, same, org, others.0, others.1, refl),
                      ground (arith, e, refused),
                    )
              ]
        | inr (inl e) ↦ inr (
          not_found "User not found",
          inr (inl ((λ u m. laws.find_one_none _ w.db u e m), refl)),
          ground (arith, e),
        )
        | inr (inr (f, e)) ↦ inr (f, inr (inr e), ground (arith, e))
      ]

  -- the target of a job is that of the request, and missing where the request has none
  abbrev pub SameTarget : Option String → Field String → Type 0
  SameTarget none target = target ≡ absent
  SameTarget (some id) target = target ≡ value id

  -- the job that an actor's request asks for
  pub record AskedFor (dto : CreateTaskReportDto) (job : TasksReportJobPayload) : Type 0 where
    pub organization : job.organization_id ≡ actor.organization_id
    pub requester : job.requested_by_user_id ≡ actor.sub
    pub role : job.requested_by_role ≡ actor.role
    pub target : SameTarget (truthy_field dto.user_id) job.target_user_id

  same_target : (target : Option String) → SameTarget target (target_part target)
  same_target none = refl
  same_target (some id) = refl

  payload_of-AskedFor : (dto : CreateTaskReportDto) → AskedFor dto (payload_of dto actor)
  payload_of-AskedFor dto = record {
    organization = refl;
    requester = refl;
    role = refl;
    target = same_target (truthy_field dto.user_id);
  }

  -- A report with a target is queued only if the target is a live user of the actor's organization and
  -- is the actor or of a lower rank. If the target is refused, the error says why, and nothing is queued
  -- or written. Else, or without a target, one job is added to the queue as `tasks-report`, with the
  -- actor's id, role and organization and the target of the request, and the reply is the job's id and
  -- the status `processing`, or the queue's error is thrown on.
  pub create_task_report_cases :
      (dto : CreateTaskReportDto)
      → ((f : Failure) × Refused (truthy_field dto.user_id) f
          × (create_task_report p add dto actor w ≡ (throw f, w)))
        ⊎ (Permitted (truthy_field dto.user_id)
            × (job : TasksReportJobPayload) × AskedFor dto job
            × ((create_task_report p add dto actor w).1
                ≡ record w { redis = (add "tasks-report" job w.redis).1 })
            × (((id : String) × ((add "tasks-report" job w.redis).0 ≡ ok id)
                  × ((create_task_report p add dto actor w).0
                      ≡ ok (record { job_id = id; status = processing })))
                ⊎ ((f : Failure) × ((add "tasks-report" job w.redis).0 ≡ throw f)
                    × ((create_task_report p add dto actor w).0 ≡ throw f))))
  unfolding create_task_report
  create_task_report_cases dto = elim (check_target_cases (truthy_field dto.user_id)) [
    | inr (f, why, e) ↦ inl (f, why, rw e)
    | inl (permitted, e) ↦
        let job = payload_of dto actor in
        let asked = payload_of-AskedFor dto in
        elim (saved_cases (add "tasks-report" job w.redis)) [
          | inl (id, redis', a) ↦ inr (
            permitted,
            job,
            asked,
            ground (arith, e, a),
            inl (id, ground (arith, a), ground (arith, e, a)),
          )
          | inr (f, redis', a) ↦ inr (
            permitted,
            job,
            asked,
            ground (arith, e, a),
            inr (f, ground (arith, a), ground (arith, e, a)),
          )
        ]
  ]
