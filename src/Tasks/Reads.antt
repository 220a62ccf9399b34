-- ===== src/Tasks/Reads.antt =====
-- What the reading operations of src/modules/tasks/tasks.service.ts return.
use mathlib.Core.List.{Memᴰ, Permᴰ}
use nestjs_team_tasks_api.Prelude.{
  ℕ, ◌+◌, ◌-◌, ◌*◌, ◌≤◌, ◌<◌, Bool, ◌&&◌, ◌||◌, Option, map, take, keep-ext, StrictEquality, ◌==◌,
  String, true, false, none, some, List, ◌≡◌, refl, ap, ◌∙◌, ◌⊎◌, inl, inr, arith, eq_iff, keep,
  length, drop, length-Permᴰ, if◌then◌else◌, string_eq,
}
use nestjs_team_tasks_api.Entities.{
  Task, AccessTokenPayload, load_task, employee, role_eq, status_eq, priority_eq, Date,
}
use nestjs_team_tasks_api.Exec.{Failure, ok, throw, not_found, forbidden}
use nestjs_team_tasks_api.Exec.Cases.{found_cases, result_cases, option_cases}
use nestjs_team_tasks_api.Platform.{Platform, World, matches_task}
use nestjs_team_tasks_api.Platform.Laws.{TaskLaws}
use nestjs_team_tasks_api.Queries.{live_in_org}
use nestjs_team_tasks_api.Queries.Laws.{matches-live_in_org, ceil_div-least}
use nestjs_team_tasks_api.Tasks.Dto.{ListTasksQueryDto, TaskResponseDto, ListTasksResponseDto}
use nestjs_team_tasks_api.Tasks.Policy.{assert_can_read_task}
use nestjs_team_tasks_api.Tasks.Cache.Effects.{cached_at, set_cases}
use nestjs_team_tasks_api.Tasks.Objects.{to_dto, list_criteria, list_options, list_response}
use nestjs_team_tasks_api.Tasks.Service.{get_one, list, list_from_db}
use nestjs_team_tasks_api.Tasks.Service.Effects.{key_of, list_lem}
use nestjs_team_tasks_api.Tasks.Service.Isolation.{within}

-- the response for a stored task
abbrev pub shown : Task → TaskResponseDto
shown t = to_dto (load_task t)

-- a column that may hold no date of deletion, and one that an optional filter lets through
abbrev pub is_live : Option Date → Bool
is_live none = true
is_live (some at) = false

abbrev pub wanted : {A : Type 0} ⦃e : StrictEquality A⦄ → Option A → A → Bool
wanted none column = true
wanted (some a) column = column == a

abbrev pub equal_text : Option String → String → Bool
equal_text none text = false
equal_text (some a) text = a == text

module _ (p : Platform) (laws : TaskLaws p.tasks) (actor : AccessTokenPayload)
    (w : World p.Db p.Redis) where
  open p use {tasks}

  -- `get_one` leaves the world as it is and ends in one of four ways. It returns a stored task with
  -- the id, live and within the actor's reach. The task is stored and live in the organization but
  -- is somebody else's and the actor an employee: `forbidden`. The organization has no live task with
  -- the id: `not_found`. The query failed, and its error is thrown on.
  pub get_one_lem :
      (id : String)
      → ((get_one p id actor w).1 ≡ w)
        × (((t : Task) × Memᴰ t (tasks.rows w.db)
              × (t.id ≡ id)
              × (t.deleted_at ≡ none)
              × (t.organization_id ≡ actor.organization_id)
              × (((within actor t ≡ true) × ((get_one p id actor w).0 ≡ ok (shown t)))
                  ⊎ ((within actor t ≡ false)
                      × ((get_one p id actor w).0 ≡ throw (forbidden "Insufficient permissions")))))
            ⊎ ((((t : Task)
                    → Memᴰ t (tasks.rows w.db)
                    → matches_task (live_in_org id actor.organization_id) t ≡ false)
                  × ((get_one p id actor w).0 ≡ throw (not_found "Task not found")))
                ⊎ ((f : Failure) × (tasks.find_one (live_in_org id actor.organization_id) w.db
                      ≡ throw f)
                    × ((get_one p id actor w).0 ≡ throw f))))
  unfolding get_one assert_can_read_task
  get_one_lem id = elim (found_cases (tasks.find_one (live_in_org id actor.organization_id) w.db)) [
    | inl (t, e) ↦
        let (stored, m) = laws.find_one_some _ w.db t e in
        let (same, org, live) = matches-live_in_org id actor.organization_id t m in
        (
          ground arith,
          inl (
            t,
            stored,
            same,
            live,
            org,
            ground (
              arith,
              e,
              org,
              eq_iff t.organization_id actor.organization_id,
              eq_iff t.assignee_id actor.sub,
            ),
          ),
        )
    | inr (inl e) ↦
        (ground arith, inr (inl ((λ t m. laws.find_one_none _ w.db t e m), ground (arith, e))))
    | inr (inr (f, e)) ↦ (ground arith, inr (inr (f, e, ground (arith, e))))
  ]

  -- whether a task is one that the request asks for: a live one of the organization, with the status and
  -- the priority that are asked for, the actor's own for an employee, and else with the assignee that is
  -- asked for, the empty one being no assignee
  abbrev pub asked_for : ListTasksQueryDto → Task → Bool
  asked_for dto t =
      t.organization_id == actor.organization_id
      && is_live t.deleted_at
      && wanted dto.status t.status
      && wanted dto.priority t.priority
      && (if actor.role == employee
          then t.assignee_id == actor.sub
          else wanted dto.assignee_id t.assignee_id || equal_text dto.assignee_id "")

  list_criteria-asked_for :
      (dto : ListTasksQueryDto) (t : Task)
      → matches_task (list_criteria actor dto) t ≡ asked_for dto t
  unfolding list_criteria
  list_criteria-asked_for dto t = ground arith

  -- a response that `list` reads from the database: a page of the tasks that are asked for, in some order
  pub record ListedFrom (dto : ListTasksQueryDto) (rows : List Task) (reply : ListTasksResponseDto)
      : Type 0 where
    pub listed : List Task
    pub permuted : Permᴰ listed (keep (asked_for dto) rows)
    pub items :
        reply.items
        ≡ map shown
            (take dto.items_per_page (drop ((dto.current_page - 1) * dto.items_per_page) listed))
    pub total_items : reply.total_items ≡ length (keep (asked_for dto) rows)
    -- the least number of pages that holds them all
    pub total_pages :
        (dto.items_per_page ≡ 0)
        ⊎ ((reply.total_items ≤ reply.total_pages * dto.items_per_page)
            × (reply.total_pages * dto.items_per_page < reply.total_items + dto.items_per_page))
    pub current_page : reply.current_page ≡ dto.current_page
    pub items_per_page : reply.items_per_page ≡ dto.items_per_page

  list_response-ListedFrom :
      (dto : ListTasksQueryDto) (page : List Task) (total : ℕ)
      → tasks.find_and_count (list_options actor dto) w.db ≡ ok (page, total)
      → ListedFrom dto (tasks.rows w.db) (list_response dto (page, total))
  unfolding list_response list_options
  list_response-ListedFrom dto page total e =
      let (listed, perm, page_eq, total_eq) = laws.page_of _ w.db page total e in
      let asked : keep (matches_task (list_criteria actor dto)) (tasks.rows w.db)
          ≡ keep (asked_for dto) (tasks.rows w.db) =
        keep-ext _ _ (tasks.rows w.db) (list_criteria-asked_for dto) in
      record {
        listed = listed;
        permuted = rw (← asked) perm;
        items = ap (map shown) page_eq;
        total_items = total_eq ∙ length-Permᴰ perm ∙ ap length asked;
        total_pages = ceil_div-least total dto.items_per_page;
        current_page = refl;
        items_per_page = refl;
      }

  -- why reading a page fails
  abbrev pub ListFails : ListTasksQueryDto → Failure → Type 0
  ListFails dto f =
      (tasks.find_and_count (list_options actor dto) w.db ≡ throw f)
      ⊎ (p.tasks_list_cache_ttl_sec ≡ throw f)

  list_from_db_cases :
      (key : String) (dto : ListTasksQueryDto)
      → ((reply : ListTasksResponseDto) × ListedFrom dto (tasks.rows w.db) reply
          × ((list_from_db p key dto actor w).0 ≡ ok reply))
        ⊎ ((f : Failure) × ListFails dto f × ((list_from_db p key dto actor w).0 ≡ throw f))
  unfolding list_from_db
  list_from_db_cases key dto =
      elim (result_cases (tasks.find_and_count (list_options actor dto) w.db)) [
        | inl ((page, total), e) ↦ elim (set_cases p w key (list_response dto (page, total))) [
          | inl s ↦ inl (
            list_response dto (page, total),
            list_response-ListedFrom dto page total e,
            ground (arith, e, s),
          )
          | inr (f, ttl, s) ↦ inr (f, inr ttl, ground (arith, e, s))
        ]
        | inr (f, e) ↦ inr (f, inl e, ground (arith, e))
      ]

  -- `list` returns what the cache holds at the request's key, and writes nothing. If it holds nothing,
  -- `list` reads a page of the database. The tasks of this page, in some order, are the live ones of the
  -- organization with the status, the priority and the assignee that are asked for, for an employee the own
  -- ones only; the response shows those that fall on the page asked for, as many as fit; it counts all of
  -- them, and the pages that they fill. It throws only if the query fails or no lifetime is configured.
  pub list_cases :
      (dto : ListTasksQueryDto)
      → ((reply : ListTasksResponseDto) × (cached_at p (key_of p dto actor w) w ≡ some reply)
          × (list p dto actor w ≡ (ok reply, w)))
        ⊎ ((cached_at p (key_of p dto actor w) w ≡ none)
            × (((reply : ListTasksResponseDto) × ListedFrom dto (tasks.rows w.db) reply
                  × ((list p dto actor w).0 ≡ ok reply))
                ⊎ ((f : Failure) × ListFails dto f × ((list p dto actor w).0 ≡ throw f))))
  list_cases dto = elim (option_cases (cached_at p (key_of p dto actor w) w)) [
    | inl (reply, e) ↦ inl (reply, e, rw (list_lem p dto actor w, e))
    | inr e ↦
        inr (e, rw (list_lem p dto actor w, e) (list_from_db_cases (key_of p dto actor w) dto))
  ]
