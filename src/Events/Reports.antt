-- ===== src/Events/Reports.antt =====
-- The jobs of the reports queue and the gateway together.
use mathlib.Core.List.{Memᴰ}
use nestjs_team_tasks_api.Prelude.{ℕ, String, List, [], ◌≡◌, ◌⊎◌, inl, inr, ap, refl, arith}
use nestjs_team_tasks_api.Js.Double.{Double}
use nestjs_team_tasks_api.Platform.{Platform, World}
use nestjs_team_tasks_api.Reports.Processor.{
  Job, ReportEvent, task_report_done, task_report_failed, Desk, process,
}
use nestjs_team_tasks_api.Reports.Delivery.{process_cases}
use nestjs_team_tasks_api.Events.Server.{SocketServer, ServerLaws}
use nestjs_team_tasks_api.Entities.{AccessTokenPayload}
use nestjs_team_tasks_api.Exec.{Result}
use nestjs_team_tasks_api.Events.Privacy.{Step, run, Admitted, run-rooms}
use nestjs_team_tasks_api.Events.Gateway.{Emission, user_room, emit_to_user}

module _ (p : Platform) {D S : Type 0} ⦃d : Double D⦄ (driver : String → String)
    (server : SocketServer S (Emission (ReportEvent D))) (laws : ServerLaws server) (now : ℕ)
    (job : Job) (desk : Desk (World p.Db p.Redis) S) where
  abbrev requester : String
  requester = job.payload.requested_by_user_id

  -- what a socket has received stays, but for the sockets of the requester
  abbrev OnlyRequester : S → Type 0
  OnlyRequester after =
      (socket : String) (e : Emission (ReportEvent D))
      → Memᴰ e (server.received after socket)
      → Memᴰ e (server.received desk.sockets socket)
        ⊎ Memᴰ socket (server.members desk.sockets (user_room requester))

  told :
      (event : String) (payload : ReportEvent D) (s : S)
      → OnlyRequester s
      → ((socket room : String) → server.members s room ≡ server.members desk.sockets room)
      → OnlyRequester (emit_to_user server requester event payload s).1
  unfolding emit_to_user
  told event payload s before same socket e m =
      elim (laws.emit_received (user_room requester) (record { event = event; payload = payload }) s
        socket e m) [
          | inl there ↦ before socket e there
          | inr (_, inside) ↦ inr (rw (← same socket (user_room requester)) inside)
        ]

  at_start : OnlyRequester desk.sockets
  at_start socket e m = inl m

  process-OnlyRequester :
      OnlyRequester (process p driver (emit_to_user server) now job desk).1.sockets
  unfolding emit_to_user
  process-OnlyRequester =
      let (id, _, ends) = process_cases p driver (emit_to_user server) now job desk in
      elim ends [
        | inl (r, _, _, e) ↦ rw (ap (λ x. x.1.sockets) e) (
            told "tasks-report:done" (task_report_done (record { job_id = id; report = r }))
              desk.sockets at_start (λ socket room. refl))
        | inr (inl (f, _, (text, _, after, _))) ↦ rw (ap (λ x. x.sockets) after) (
            told "tasks-report:failed" (task_report_failed (record { job_id = id; error = text }))
              desk.sockets at_start (λ socket room. refl))
        | inr (inr (r, f, _, x, _)) ↦ absurd (ground (arith, x))
      ]

  -- Over a server that had no sockets, after any connects, leaves and sends: however a job of the reports
  -- queue ends, whatever a socket has received by then it had received before the job ran, or a socket of
  -- that id connected with a token that verifies as that of the user who requested the job.
  pub process-only_requester :
      (verify : String → Result AccessTokenPayload) (steps : List (Step (ReportEvent D))) (s : S)
      → ((room : String) → server.members s room ≡ [])
      → ((socket : String) → server.received s socket ≡ [])
      → desk.sockets ≡ run server verify steps s
      → (socket : String) (e : Emission (ReportEvent D))
      → Memᴰ e
          (server.received (process p driver (emit_to_user server) now job desk).1.sockets socket)
      → Memᴰ e (server.received desk.sockets socket)
        ⊎ Admitted server verify steps socket job.payload.requested_by_user_id
  process-only_requester verify steps s no_members no_events now_at socket e m =
      elim (process-OnlyRequester socket e m) [
        | inl before ↦ inl before
        | inr inside ↦ inr (
            run-rooms server verify laws steps s no_members no_events socket requester
              (rw now_at at inside))
      ]
