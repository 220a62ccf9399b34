-- ===== src/Tests/Reads.antt =====
-- The theorems on reading tasks, on the list cache and on the nightly job at concrete inputs.
use mathlib.Core.List.{Memᴰ}
use nestjs_team_tasks_api.Prelude.{◌≢◌, String, none, some, ◌≡◌, ◌⊎◌, refl, true, false, arith}
use nestjs_team_tasks_api.Js.Number.{pos, show_int}
use nestjs_team_tasks_api.Js.Text.{NoColon}
use nestjs_team_tasks_api.Entities.{Task, Date}
use nestjs_team_tasks_api.Exec.{Failure, ok, throw, not_found, forbidden}
use nestjs_team_tasks_api.Platform.{World, matches_task}
use nestjs_team_tasks_api.Queries.{live_in_org}
use nestjs_team_tasks_api.Tasks.Dto.{ListTasksQueryDto, ListTasksResponseDto}
use nestjs_team_tasks_api.Tasks.Cache.{
  tasks_list_cache_entry_key, tasks_list_scope, tasks_list_filters_hash, stable_parts,
}
use nestjs_team_tasks_api.Tasks.Cache.Effects.{cached_at}
use nestjs_team_tasks_api.Tasks.Cache.Keys.{tasks_list_cache_entry_key-injective}
use nestjs_team_tasks_api.Tasks.Objects.{list_options}
use nestjs_team_tasks_api.Tasks.Service.{get_one, list, delete_and_bump, soft_delete}
use nestjs_team_tasks_api.Tasks.Policy.{assert_can_delete_task}
use nestjs_team_tasks_api.Tasks.Service.Effects.{key_of}
use nestjs_team_tasks_api.Tasks.Service.Isolation.{within}
use nestjs_team_tasks_api.Tasks.Reads.{shown, get_one_lem, ListedFrom, ListFails, list_cases}
use nestjs_team_tasks_api.Tasks.Cron.{handle_task_overdue}
use nestjs_team_tasks_api.Tasks.Cron.Laws.{mark, handle_task_overdue_lem, handle_task_overdue-twice}
use nestjs_team_tasks_api.Tasks.Cache.{
  org_tasks_list_version_key, bump_org_list_cache, build_cache_key,
}
use nestjs_team_tasks_api.Tasks.Cache.Effects.{current_version}
use nestjs_team_tasks_api.Tasks.Writes.{deleted, write-new_keys}
use nestjs_team_tasks_api.Memory.Repository.{repository}
use nestjs_team_tasks_api.Memory.World.{platform, Db, Redis, put_key}
use nestjs_team_tasks_api.Memory.World.Laws.{tasks_table-TaskLaws, redis_client-RedisLaws}
use nestjs_team_tasks_api.Tests.Data.{ann, eve, max, world}

abbrev first_page : ListTasksQueryDto
first_page = record {
  current_page = 1;
  items_per_page = 20;
  status = none;
  assignee_id = none;
  priority = none;
}

get_one_lem_example :
    ((get_one platform "t2" eve world).1 ≡ world)
    × (((t : Task) × Memᴰ t (platform.tasks.rows world.db)
          × (t.id ≡ "t2")
          × (t.deleted_at ≡ none)
          × (t.organization_id ≡ eve.organization_id)
          × (((within eve t ≡ true) × ((get_one platform "t2" eve world).0 ≡ ok (shown t)))
              ⊎ ((within eve t ≡ false)
                  × ((get_one platform "t2" eve world).0
                      ≡ throw (forbidden "Insufficient permissions")))))
        ⊎ ((((t : Task)
                → Memᴰ t (platform.tasks.rows world.db)
                → matches_task (live_in_org "t2" eve.organization_id) t ≡ false)
              × ((get_one platform "t2" eve world).0 ≡ throw (not_found "Task not found")))
            ⊎ ((f : Failure) × (platform.tasks.find_one
                    (live_in_org "t2" eve.organization_id)
                    world.db
                  ≡ throw f)
                × ((get_one platform "t2" eve world).0 ≡ throw f))))
get_one_lem_example = get_one_lem platform tasks_table-TaskLaws eve world "t2"

list_cases_example :
    ((reply : ListTasksResponseDto) × (cached_at platform
          (key_of platform first_page eve world)
          world
        ≡ some reply)
      × (list platform first_page eve world ≡ (ok reply, world)))
    ⊎ ((cached_at platform (key_of platform first_page eve world) world ≡ none)
        × (((reply : ListTasksResponseDto) × ListedFrom platform tasks_table-TaskLaws eve world
                first_page
                (platform.tasks.rows world.db)
                reply
              × ((list platform first_page eve world).0 ≡ ok reply))
            ⊎ ((f : Failure) × ListFails platform tasks_table-TaskLaws eve world first_page f
                × ((list platform first_page eve world).0 ≡ throw f))))
list_cases_example = list_cases platform tasks_table-TaskLaws eve world first_page

handle_task_overdue_lem_example :
    ((handle_task_overdue platform 20 world).1.redis ≡ world.redis)
    × (((handle_task_overdue platform 20 world).0 ≡ ok tt)
          × ((stamp : Date) × (platform.tasks.rows (handle_task_overdue platform 20 world).1.db
                ≡ mark 20 stamp (platform.tasks.rows world.db)))
        ⊎ ((f : Failure) × ((handle_task_overdue platform 20 world).0 ≡ throw f)
            × (platform.tasks.rows (handle_task_overdue platform 20 world).1.db
                ≡ platform.tasks.rows world.db)))
handle_task_overdue_lem_example = handle_task_overdue_lem platform tasks_table-TaskLaws 20 world

handle_task_overdue-twice_example :
    platform.tasks.rows
      (handle_task_overdue platform 20 (handle_task_overdue platform 20 world).1).1.db
    ≡ platform.tasks.rows (handle_task_overdue platform 20 world).1.db
unfolding handle_task_overdue repository
handle_task_overdue-twice_example =
    handle_task_overdue-twice platform tasks_table-TaskLaws 20 world refl

acme_NoColon : NoColon "acme"
acme_NoColon = (omega arith, (omega arith, (omega arith, (omega arith, tt))))

ann_NoColon : NoColon "ann"
ann_NoColon = (omega arith, (omega arith, (omega arith, tt)))

max_NoColon : NoColon "max"
max_NoColon = (omega arith, (omega arith, (omega arith, tt)))

tasks_list_cache_entry_key-injective_example :
    ◌≡◌ {A = String} "acme" "acme"
    × (pos 3 ≡ pos 3)
    × (list_options ann first_page ≡ list_options max first_page)
unfolding tasks_list_cache_entry_key tasks_list_scope tasks_list_filters_hash stable_parts
tasks_list_cache_entry_key-injective_example =
    tasks_list_cache_entry_key-injective platform ann max (pos 3) (pos 3) first_page first_page
      acme_NoColon acme_NoColon ann_NoColon max_NoColon (λ e. refl) refl

-- Redis after the first write of the organization
abbrev bumped : Redis
bumped = put_key (org_tasks_list_version_key "acme") (show_int (pos 1)) world.redis

abbrev deleted_t2 : World Db Redis
deleted_t2 = (soft_delete platform "t2" ann world).1

delete_run : (soft_delete platform "t2" ann world).0 ≡ ok tt
unfolding soft_delete repository assert_can_delete_task delete_and_bump bump_org_list_cache
delete_run = refl

write-new_keys_example :
    (current_version platform "acme" deleted_t2 ≡ pos 1)
    × (build_cache_key platform "acme" (current_version platform "acme" world) eve first_page
        ≢ build_cache_key platform "acme"
            (current_version platform "acme" deleted_t2)
            eve
            first_page)
unfolding org_tasks_list_version_key
write-new_keys_example =
    write-new_keys platform redis_client-RedisLaws "acme" world deleted_t2 none
      (some (show_int (pos 1))) 0 1 bumped eve eve first_page first_page
      (deleted "t2" ann refl delete_run) refl refl refl refl acme_NoColon refl refl
