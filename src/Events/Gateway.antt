-- ===== src/Events/Gateway.antt =====
-- src/modules/events/events.gateway.ts, events.constants.ts and events-emitter.service.ts: which room a
-- socket joins, and to which room a user's events go. The verification of a token is a parameter.
use nestjs_team_tasks_api.Prelude.{
  String, ◌&&◌, Option, none, some, List, [], ◌∷◌, ◌==◌, string_eq, if◌then◌else◌,
}
use nestjs_team_tasks_api.Js.{Field, value, truthy, truthy_field, template}
use nestjs_team_tasks_api.Js.Case.{to_lower}
use nestjs_team_tasks_api.Js.Split.{split}
use nestjs_team_tasks_api.Entities.{AccessTokenPayload}
use nestjs_team_tasks_api.Exec.{Exec, Result, ok, lift, try_catch, ◌>>=◌}
use nestjs_team_tasks_api.Events.Server.{SocketServer}

-- `handshake.auth['token']` and `handshake.headers.authorization`, where they are strings
pub record Handshake : Type 0 where
  pub auth_token : Field String
  pub authorization : Field String

pub record Client : Type 0 where
  pub id : String
  pub handshake : Handshake

pub record Emission (P : Type 0) : Type 0 where
  pub event : String
  pub payload : P

unfoldable pub user_room : String → String
user_room sub = template ("user:" ∷ sub ∷ [])

abbrev pub token_of_header : List String → Option String
token_of_header (scheme ∷ token ∷ rest) =
    if to_lower scheme == "bearer" && truthy token then some token else none
token_of_header _ = none

abbrev pub from_header : Field String → Option String
from_header (value header) = token_of_header (split b' ' header)
from_header _ = none

-- the token of `handshake.auth`, if it is a string that is not empty, else that of the header
abbrev pub or_header : Option String → Field String → Option String
or_header (some token) authorization = some token
or_header none authorization = from_header authorization

unfoldable pub extract_access_token : Handshake → Option String
extract_access_token handshake =
    or_header (truthy_field handshake.auth_token) handshake.authorization

module _ {S P : Type 0} (server : SocketServer S (Emission P)) where
  abbrev pub disconnect_client : Client → Exec S (Unit {0})
  disconnect_client client s = (ok tt, server.disconnect client.id s)

  unfoldable pub emit_to_user : String → String → P → Exec S (Unit {0})
  emit_to_user user_id event payload s =
      (ok tt, server.emit_to (user_room user_id) (record { event = event; payload = payload }) s)

  module _ (verify : String → Result AccessTokenPayload) where
    abbrev pub admit : Client → Option String → Exec S (Unit {0})
    admit client none = disconnect_client client
    admit client (some token) =
        try_catch (do payload ← lift (verify token); server.join client.id (user_room payload.sub))
          (λ error. disconnect_client client)

    unfoldable pub handle_connection : Client → Exec S (Unit {0})
    unfolding extract_access_token
    handle_connection client = admit client (extract_access_token client.handshake)
