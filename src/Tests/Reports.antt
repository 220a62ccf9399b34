-- ===== src/Tests/Reports.antt =====
-- The theorem on requested reports at a concrete input.
use nestjs_team_tasks_api.Prelude.{String, ◌≡◌, ◌⊎◌}
use nestjs_team_tasks_api.Js.{value, truthy_field}
use nestjs_team_tasks_api.Exec.{Failure, Result, ok, throw}
use nestjs_team_tasks_api.Reports.Service.{
  CreateTaskReportDto, TasksReportJobPayload, processing, create_task_report,
}
use nestjs_team_tasks_api.Reports.Laws.{Permitted, Refused, AskedFor, create_task_report_cases}
use nestjs_team_tasks_api.Memory.World.{platform, Redis, put_key}
use nestjs_team_tasks_api.Memory.World.Laws.{users_table-UserLaws}
use nestjs_team_tasks_api.Tests.Data.{ann, world}

abbrev queue : String → TasksReportJobPayload → Redis → Result String × Redis
queue name payload redis = (ok "1", put_key "job:1" name redis)

abbrev on_eve : CreateTaskReportDto
on_eve = record { user_id = value "eve" }

create_task_report_cases_example :
    ((f : Failure) × Refused platform users_table-UserLaws queue ann world
        (truthy_field on_eve.user_id)
        f
      × (create_task_report platform queue on_eve ann world ≡ (throw f, world)))
    ⊎ (Permitted platform users_table-UserLaws queue ann world (truthy_field on_eve.user_id)
        × (j : TasksReportJobPayload) × AskedFor platform users_table-UserLaws queue ann world
            on_eve j
        × ((create_task_report platform queue on_eve ann world).1
            ≡ record world { redis = (queue "tasks-report" j world.redis).1 })
        × (((id : String) × ((queue "tasks-report" j world.redis).0 ≡ ok id)
              × ((create_task_report platform queue on_eve ann world).0
                  ≡ ok (record { job_id = id; status = processing })))
            ⊎ ((f : Failure) × ((queue "tasks-report" j world.redis).0 ≡ throw f)
                × ((create_task_report platform queue on_eve ann world).0 ≡ throw f))))
create_task_report_cases_example =
    create_task_report_cases platform users_table-UserLaws queue ann world on_eve
