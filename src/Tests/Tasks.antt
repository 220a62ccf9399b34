-- ===== src/Tests/Tasks.antt =====
-- The theorems on tasks at concrete inputs.
use mathlib.Core.List.{Memᴰ}
use nestjs_team_tasks_api.Prelude.{List, [], ◌∷◌, ◌≡◌, refl}
use nestjs_team_tasks_api.Js.{absent, value}
use nestjs_team_tasks_api.Entities.{AccessTokenPayload, done, overdue, Task}
use nestjs_team_tasks_api.Tasks.Service.{soft_delete, update, save_and_bump, delete_and_bump}
use nestjs_team_tasks_api.Tasks.Cache.{bump_org_list_cache, org_tasks_list_version_key}
use nestjs_team_tasks_api.Js.Number.{parse_int, show_int}
use nestjs_team_tasks_api.Tasks.Policy.{assert_can_update_task, assert_can_delete_task}
use nestjs_team_tasks_api.Tasks.Objects.{merge}
use nestjs_team_tasks_api.Tasks.Dto.{UpdateTaskDto}
use nestjs_team_tasks_api.Tasks.Controller.{Request, update_task, delete_task, serve}
use nestjs_team_tasks_api.Tasks.Tenancy.{of_org, of_org-serve, assigned, assigned-serve}
use nestjs_team_tasks_api.Memory.World.{platform}
use nestjs_team_tasks_api.Tasks.Overdue.{overdue-serve}
use nestjs_team_tasks_api.Memory.Repository.{repository}
use nestjs_team_tasks_api.Memory.World.Laws.{tasks_table-TaskLaws}
use nestjs_team_tasks_api.Tests.Data.{ann, eve, ann_task, bob_task, world, eve-ne-ann, acme-ne-beta}

abbrev finish : UpdateTaskDto
finish = record {
  title = absent;
  description = absent;
  status = value done;
  priority = absent;
  assignee_id = absent;
  due_date = absent;
}

abbrev requests : List (AccessTokenPayload × Request)
requests = (ann, update_task "t1" finish) ∷ (eve, delete_task "t2") ∷ (eve, delete_task "t3") ∷ []

abbrev eve's_requests : List (AccessTokenPayload × Request)
eve's_requests = (eve, update_task "t1" finish) ∷ (eve, update_task "t2" finish) ∷ []

of_org-serve_example :
    of_org "beta" (platform.tasks.rows (serve platform requests world).db) ≡ bob_task ∷ []
unfolding repository
of_org-serve_example =
    of_org-serve platform tasks_table-TaskLaws "beta" requests world
      (acme-ne-beta, (acme-ne-beta, (acme-ne-beta, tt)))

assigned-serve_example :
    assigned "ann" (platform.tasks.rows (serve platform eve's_requests world).db) ≡ ann_task ∷ []
unfolding repository
assigned-serve_example =
    assigned-serve platform tasks_table-TaskLaws "ann" eve's_requests world
      ((refl, eve-ne-ann), ((refl, eve-ne-ann), tt))

overdue-serve_example :
    (s : Task) × Memᴰ s (platform.tasks.rows world.db) × (s.id ≡ "t3") × (s.status ≡ overdue)
unfolding repository serve soft_delete update assert_can_update_task save_and_bump merge
    bump_org_list_cache org_tasks_list_version_key parse_int show_int assert_can_delete_task
    delete_and_bump
overdue-serve_example =
    overdue-serve platform tasks_table-TaskLaws requests world bob_task
      (Memᴰ.tail (Memᴰ.tail (Memᴰ.head refl))) refl
