-- ===== src/Tests/Sessions.antt =====
-- The theorem on sequences of calls on sessions at a concrete input.
use nestjs_team_tasks_api.Prelude.{ℕ, List, [], ◌∷◌, ◌≡◌, true, refl, arith}
use nestjs_team_tasks_api.Exec.{unauthorized}
use nestjs_team_tasks_api.Platform.{World}
use nestjs_team_tasks_api.Auth.Service.{
  refresh_session_key, verify_refresh_or_null, refresh_session, refresh, logout,
}
use nestjs_team_tasks_api.Auth.Accounts.{open_session, login}
use nestjs_team_tasks_api.Auth.Sessions.{
  Call, logs_in, refreshes, logs_out, Reply, session, access, cleared, failed, Sessions, Steps,
  execute, run,
}
use nestjs_team_tasks_api.Auth.Covers.{Covers}
use nestjs_team_tasks_api.Auth.Refinement.{run-Steps}
use nestjs_team_tasks_api.Memory.Repository.{repository}
use nestjs_team_tasks_api.Memory.World.{platform, Db, Redis}
use nestjs_team_tasks_api.Memory.World.Laws.{redis_client-RedisLaws}
use nestjs_team_tasks_api.Tests.Data.{world}
use nestjs_team_tasks_api.Tests.Auth.{jwt}
use nestjs_team_tasks_api.Tests.Accounts.{compare_password, commit, ann_login, ann_session}

abbrev calls : List (ℕ × Call)
calls =
    (100, logs_in "s1" ann_login)
    ∷ (200, refreshes "token")
    ∷ (300, logs_out "token")
    ∷ (400, refreshes "token")
    ∷ []

abbrev ended : List (ℕ × Call × Reply) × World Db Redis
ended = run platform jwt compare_password commit calls world

calls_run :
    ended.0
    ≡ (100, logs_in "s1" ann_login, session ann_session)
      ∷ (200, refreshes "token", access "renewed")
      ∷ (300, logs_out "token", cleared true)
      ∷ (400, refreshes "token", failed (unauthorized "Invalid refresh token"))
      ∷ []
unfolding run execute refresh refresh_session logout verify_refresh_or_null login open_session
    repository refresh_session_key
calls_run = refl

no_sessions : Covers platform redis_client-RedisLaws world.redis []
no_sessions = record { covered = λ user id held h. absurd (ground (arith, h)) }

run-Steps_example :
    (s : Sessions) × Steps jwt ended.0 [] s × Covers platform redis_client-RedisLaws ended.1.redis s
run-Steps_example =
    run-Steps platform redis_client-RedisLaws jwt compare_password commit calls world [] no_sessions
