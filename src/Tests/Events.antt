-- ===== src/Tests/Events.antt =====
-- The theorems on the gateway at concrete inputs.
use mathlib.Core.List.{Memᴰ}
use nestjs_team_tasks_api.Prelude.{ℕ, String, List, [], ◌∷◌, ◌≡◌, ◌⊎◌, refl}
use nestjs_team_tasks_api.Js.{absent, value}
use nestjs_team_tasks_api.Entities.{AccessTokenPayload}
use nestjs_team_tasks_api.Exec.{Result, ok}
use nestjs_team_tasks_api.Platform.{World}
use nestjs_team_tasks_api.Users.Service as Users
use nestjs_team_tasks_api.Tasks.Service as Tasks
use nestjs_team_tasks_api.Memory.Repository.{repository}
use nestjs_team_tasks_api.Reports.Report.{count_tasks, report_of}
use nestjs_team_tasks_api.Reports.Processor.{make_report}
use nestjs_team_tasks_api.Events.Server.{SocketServer}
use nestjs_team_tasks_api.Auth.Bearer.{jwt_from_request}
use nestjs_team_tasks_api.Reports.Processor.{ReportEvent, task_report_done, Desk, process}
use nestjs_team_tasks_api.Events.Gateway.{
  Handshake, Client, Emission, user_room, extract_access_token, emit_to_user, handle_connection,
}
use nestjs_team_tasks_api.Events.Admission.{extract_access_token-header}
use nestjs_team_tasks_api.Events.Privacy.{
  Step, connect, send, perform, run, Sent, Admitted, run-private, emit_to_user-reaches,
}
use nestjs_team_tasks_api.Events.Reports.{process-only_requester}
use nestjs_team_tasks_api.Memory.Sockets.{
  Sockets, no_sockets, socket_server, socket_server-ServerLaws,
}
use nestjs_team_tasks_api.Memory.World.{platform, Db, Redis}
use nestjs_team_tasks_api.Tests.Data.{ann, world}
use nestjs_team_tasks_api.Tests.Processor.{whole, team_report, job, driver}

abbrev phone : Client
phone = record { id = "s1"; handshake = record { auth_token = value "t"; authorization = absent } }

abbrev browser : Handshake
browser = record { auth_token = absent; authorization = value "Bearer t" }

-- each token is ann's
abbrev verify : String → Result AccessTokenPayload
verify token = ok ann

abbrev hello : Emission ℕ
hello = record { event = "hello"; payload = 1 }

abbrev steps : List (Step ℕ)
steps = connect phone ∷ send "ann" "hello" 1 ∷ []

hello_received : Memᴰ hello (
    (socket_server (Emission ℕ)).received
      (run (socket_server (Emission ℕ)) verify steps no_sockets)
      "s1")
unfolding run perform handle_connection emit_to_user extract_access_token user_room
hello_received = Memᴰ.head refl

run-private_example : Sent (socket_server (Emission ℕ)) verify steps "s1" hello
run-private_example =
    run-private (socket_server (Emission ℕ)) verify (socket_server-ServerLaws (Emission ℕ)) steps
      no_sockets (λ room. refl) (λ socket. refl) "s1" hello hello_received

abbrev joined_once : Sockets (Emission ℕ)
joined_once = ((socket_server (Emission ℕ)).join "s1" (user_room "ann") no_sockets).1

emit_to_user-reaches_example : Memᴰ hello (
    (socket_server (Emission ℕ)).received
      (run
        (socket_server (Emission ℕ))
        verify
        (connect phone ∷ send ann.sub "hello" 1 ∷ [])
        no_sockets)
      phone.id)
unfolding extract_access_token
emit_to_user-reaches_example =
    emit_to_user-reaches (socket_server (Emission ℕ)) verify (socket_server-ServerLaws (Emission ℕ))
      phone "t" ann no_sockets joined_once "hello" 1 refl refl refl

extract_access_token-header_example :
    extract_access_token browser ≡ jwt_from_request (value "Bearer t")
extract_access_token-header_example = extract_access_token-header browser refl

abbrev report_server : SocketServer (Sockets (Emission (ReportEvent ℕ))) (Emission (ReportEvent ℕ))
report_server = socket_server (Emission (ReportEvent ℕ))

-- a socket of ann, who requests the report
abbrev arrivals : List (Step (ReportEvent ℕ))
arrivals = connect phone ∷ []

abbrev waiting : Desk (World Db Redis) (Sockets (Emission (ReportEvent ℕ)))
waiting = record { world = world; sockets = run report_server verify arrivals no_sockets }

abbrev told : Sockets (Emission (ReportEvent ℕ))
told = (process platform driver (emit_to_user report_server) 20 job waiting).1.sockets

abbrev report_done : Emission (ReportEvent ℕ)
report_done = record {
  event = "tasks-report:done";
  payload = task_report_done (record { job_id = "7"; report = team_report });
}

told_s1 : Memᴰ report_done (report_server.received told "s1")
unfolding process make_report Users.find_all Tasks.find_all repository count_tasks report_of
    emit_to_user user_room run
told_s1 = Memᴰ.head refl

process-only_requester_example :
    Memᴰ report_done (report_server.received waiting.sockets "s1")
    ⊎ Admitted report_server verify arrivals "s1" job.payload.requested_by_user_id
process-only_requester_example =
    process-only_requester platform driver report_server
      (socket_server-ServerLaws (Emission (ReportEvent ℕ))) 20 job waiting verify arrivals
      no_sockets (λ room. refl) (λ socket. refl) refl "s1" report_done told_s1
