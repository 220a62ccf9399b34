-- ===== src/Tests/Cookies.antt =====
-- The theorems on cookies and bearer tokens at concrete inputs.
use Prim.Native.String.{◌++◌ as join}
use nestjs_team_tasks_api.Prelude.{String, some, [], ◌++◌, ◌≡◌, refl, arith}
use nestjs_team_tasks_api.Js.{value}
use nestjs_team_tasks_api.Js.Case.{to_lower}
use nestjs_team_tasks_api.Exec.{ok}
use nestjs_team_tasks_api.Platform.{World}
use nestjs_team_tasks_api.Auth.Accounts.{login, register}
use nestjs_team_tasks_api.Auth.Controller.{
  Cookie, refresh_cookie, Exchange, AccessTokenResponseDto, register_handler, login_handler,
}
use nestjs_team_tasks_api.Auth.Cookies.{Answers, handlers-Answers, logged_in, logged_out}
use nestjs_team_tasks_api.Auth.Bearer.{jwt_from_request, jwt_from_request-header}
use nestjs_team_tasks_api.Memory.World.{platform, Db, Redis}
use nestjs_team_tasks_api.Memory.World.Laws.{redis_client-RedisLaws, users_table-UserLaws}
use nestjs_team_tasks_api.Tests.Data.{world}
use nestjs_team_tasks_api.Tests.Auth.{jwt}
use nestjs_team_tasks_api.Tests.Accounts.{compare_password, ann_login, signup, commit}

abbrev exchange : Exchange (World Db Redis)
exchange = record { world = world; cookies = [] }

handlers-Answers_example :
    Answers
      (ok "production")
      exchange
      (register_handler platform jwt (ok "production") commit "s1" signup)
      (register platform jwt commit "s1" signup)
    × Answers
        (ok "production")
        exchange
        (login_handler platform jwt (ok "production") compare_password "s1" ann_login)
        (login platform jwt compare_password "s1" ann_login)
handlers-Answers_example =
    handlers-Answers platform jwt (ok "production") "s1" exchange commit signup compare_password
      ann_login

abbrev ann_answer : AccessTokenResponseDto
ann_answer = record { access_token = "ann" }

abbrev ann_cookie : Cookie
ann_cookie = refresh_cookie "production" "token" 604800

abbrev ann_in : Exchange (World Db Redis)
ann_in =
    logged_in platform users_table-UserLaws redis_client-RedisLaws jwt "production" "s1"
      compare_password ann_login exchange

abbrev ann_out : Exchange (World Db Redis)
ann_out =
    logged_out platform users_table-UserLaws redis_client-RedisLaws jwt "production" "s1"
      compare_password ann_login exchange 300 ann_cookie

jwt_from_request-header_example :
    jwt_from_request (value (join "Bearer" (join " " "abc"))) ≡ some "abc"
unfolding to_lower
jwt_from_request-header_example =
    jwt_from_request-header "Bearer" "abc" (ground arith) (ground arith) refl refl
