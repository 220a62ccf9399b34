-- ===== src/Tasks/Cache.antt =====
-- src/modules/tasks/tasks-list-cache.service.ts: the cache of `GET /tasks` in Redis. The version of
-- an organization's lists is a number that each write increments; it is a part of every key.
pub mod Parts
pub mod Keys
pub mod Effects
pub mod Invalidation
use Prim.Native.Nat.{Ordering}
use Prim.Native.String.{compare}
use nestjs_team_tasks_api.Prelude.{
  ℕ, String, Bool, true, false, not, ◌&&◌, Option, none, some, List, [], ◌∷◌, ◌++◌, ◌==◌,
  if◌then◌else◌,
}
use nestjs_team_tasks_api.Js.{template}
use nestjs_team_tasks_api.Js.Number.{ℤ, pos, parse_int, show_int}
use nestjs_team_tasks_api.Entities.{
  UserRole, owner, manager, employee, TaskStatus, todo, in_progress, done, overdue, TaskPriority,
  low, medium, high, AccessTokenPayload, role_eq,
}
use nestjs_team_tasks_api.Exec.{Exec, Result, ok, throw, pure, try_catch, lift, ◌>>=◌, ◌>>◌}
use nestjs_team_tasks_api.Platform.{
  Platform, World, Part, num, txt, ask_redis, run_redis, RedisClient,
}
use nestjs_team_tasks_api.Tasks.Dto.{ListTasksQueryDto, ListTasksResponseDto}

-- the string values of the enums
abbrev pub status_text : TaskStatus → String
status_text todo = "todo"
status_text in_progress = "in_progress"
status_text done = "done"
status_text overdue = "overdue"

abbrev pub priority_text : TaskPriority → String
priority_text low = "low"
priority_text medium = "medium"
priority_text high = "high"

unfoldable pub org_tasks_list_version_key : String → String
org_tasks_list_version_key organization_id = template ("tasks:list:ver:" ∷ organization_id ∷ [])

unfoldable pub tasks_list_scope : AccessTokenPayload → String
tasks_list_scope actor =
    if actor.role == employee then template ("emp:" ∷ actor.sub ∷ []) else "staff"

-- `if (x !== undefined) parts[k] = x`
abbrev add_part {ℓ} : {A : Type ℓ} → String → (A → String) → Option A → List (String × Part)
add_part k text none = []
add_part k text (some a) = (k, txt (text a)) ∷ []

-- `Object.keys(parts).sort()`, with the entries of the keys
unfoldable pub insert_by_key : String × Part → List (String × Part) → List (String × Part)
insert_by_key e [] = e ∷ []
insert_by_key e (f ∷ sorted) =
    let rest = insert_by_key e sorted in
    elim (compare e.0 f.0) [ Ordering.gt ↦ f ∷ rest | _ ↦ e ∷ f ∷ sorted ]

unfoldable pub sort_by_key : List (String × Part) → List (String × Part)
sort_by_key [] = []
sort_by_key (e ∷ entries) = insert_by_key e (sort_by_key entries)

unfoldable pub filter_parts : AccessTokenPayload → ListTasksQueryDto → List (String × Part)
filter_parts actor query =
    ("p", num query.current_page) ∷ ("ipp", num query.items_per_page) ∷ []
    ++ (add_part "s" status_text query.status
        ++ (add_part "pr" priority_text query.priority
            ++ (if not (actor.role == employee)
                then add_part "a" (λ a. a) query.assignee_id
                else [])))

unfoldable pub stable_parts : AccessTokenPayload → ListTasksQueryDto → List (String × Part)
unfolding sort_by_key insert_by_key filter_parts
stable_parts actor query = sort_by_key (filter_parts actor query)

module _ (p : Platform) where
  open p use {client, digest, stringify_list, parse_list, tasks_list_cache_ttl_sec}

  unfoldable pub tasks_list_filters_hash : AccessTokenPayload → ListTasksQueryDto → String
  unfolding stable_parts
  tasks_list_filters_hash actor query = digest (stable_parts actor query)

  unfoldable pub tasks_list_cache_entry_key :
      String → ℤ → AccessTokenPayload → ListTasksQueryDto → String
  unfolding tasks_list_scope tasks_list_filters_hash
  tasks_list_cache_entry_key organization_id version actor query = template (
      "tasks:list:"
      ∷ organization_id
      ∷ ":v"
      ∷ show_int version
      ∷ ":"
      ∷ tasks_list_scope actor
      ∷ ":"
      ∷ tasks_list_filters_hash actor query
      ∷ [])

  abbrev Cached : Type 0 → Type 0
  Cached A = Exec (World p.Db p.Redis) A

  abbrev pub version_of : Option String → ℤ
  version_of none = pos 0
  version_of (some raw) = elim (parse_int raw) [ none ↦ pos 0 | some n ↦ n ]

  unfoldable pub get_org_list_version : String → Cached ℤ
  get_org_list_version organization_id =
      try_catch
        (do
          raw ← ask_redis (client.get (org_tasks_list_version_key organization_id))
          pure (version_of raw))
        (λ _. pure (pos 0))

  abbrev pub build_cache_key : String → ℤ → AccessTokenPayload → ListTasksQueryDto → String
  build_cache_key = tasks_list_cache_entry_key

  abbrev parsed : Option String → Cached (Option ListTasksResponseDto)
  parsed none = pure none
  parsed (some raw) = do value ← lift (parse_list raw); pure (some value)

  unfoldable pub get : String → Cached (Option ListTasksResponseDto)
  get key = try_catch (do raw ← ask_redis (client.get key); parsed raw) (λ _. pure none)

  unfoldable pub set : String → ListTasksResponseDto → Cached (Unit {0})
  set key value = do
    ttl_sec ← lift tasks_list_cache_ttl_sec
    try_catch (run_redis (client.set_ex key (stringify_list value) ttl_sec)) (λ _. pure tt)

  unfoldable pub bump_org_list_cache : String → Cached (Unit {0})
  bump_org_list_cache organization_id =
      try_catch (do run_redis (client.incr (org_tasks_list_version_key organization_id)); pure tt)
        (λ _. pure tt)
