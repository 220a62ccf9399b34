-- ===== src/Events/Admission.antt =====
-- As whom a socket is admitted.
use mathlib.Core.List.{Memᴰ}
use text.Mathlib.TextLemmas.{append_cancel_left, append_cancel_right}
use nestjs_team_tasks_api.Prelude.{
  String, Option, none, some, List, [], ◌∷◌, ◌≡◌, refl, ◌⊎◌, inl, inr, arith,
}
use nestjs_team_tasks_api.Js.{Field, absent, undefined, null, value, truthy_field}
use nestjs_team_tasks_api.Entities.{AccessTokenPayload}
use nestjs_team_tasks_api.Exec.{Result, ok}
use nestjs_team_tasks_api.Exec.Cases.{result_cases, saved_cases}
use nestjs_team_tasks_api.Auth.Bearer.{jwt_from_request, token_of_parts}
use nestjs_team_tasks_api.Events.Server.{SocketServer, ServerLaws}
use nestjs_team_tasks_api.Events.Gateway.{
  Handshake, Client, Emission, user_room, extract_access_token, admit, token_of_header, from_header,
}
use nestjs_team_tasks_api.Js.Split.{split}

pub user_room-injective : (a b : String) → user_room a ≡ user_room b → a ≡ b
unfolding user_room
user_room-injective a b h = append_cancel_right a b "" (append_cancel_left "user:" _ _ h)

module _ {S P : Type 0} (server : SocketServer S (Emission P))
    (verify : String → Result AccessTokenPayload) where
  -- the client presented a token that verifies, of the user
  pub record Authenticated (client : Client) (user_id : String) : Type 0 where
    pub token : String
    pub payload : AccessTokenPayload
    pub presented : extract_access_token client.handshake ≡ some token
    pub verified : verify token ≡ ok payload
    pub same_user : payload.sub ≡ user_id

  -- where a connection with a token ends: in the room of the user, or disconnected
  admit_cases :
      (client : Client) (token : String) (s : S)
      → ((payload : AccessTokenPayload) × (verify token ≡ ok payload)
          × ((admit server verify client (some token) s).1
              ≡ (server.join client.id (user_room payload.sub) s).1))
        ⊎ (((payload : AccessTokenPayload) × (verify token ≡ ok payload)
              × ((admit server verify client (some token) s).1
                  ≡ server.disconnect client.id
                      (server.join client.id (user_room payload.sub) s).1))
            ⊎ ((admit server verify client (some token) s).1 ≡ server.disconnect client.id s))
  admit_cases client token s = elim (result_cases (verify token)) [
    | inr (f, v) ↦ inr (inr (ground (arith, v)))
    | inl (payload, v) ↦ elim (saved_cases (server.join client.id (user_room payload.sub) s)) [
      | inl (u, s', j) ↦ inl (payload, v, ground (arith, v, j))
      | inr (f, s', j) ↦ inr (inl (payload, v, ground (arith, v, j)))
    ]
  ]

  module _ (laws : ServerLaws server) where
    pub admit_members :
        (client : Client) (t : Option String) (s : S) (socket room : String)
        → extract_access_token client.handshake ≡ t
        → Memᴰ socket (server.members (admit server verify client t s).1 room)
        → Memᴰ socket (server.members s room)
          ⊎ ((user_id : String) × (socket ≡ client.id)
              × (room ≡ user_room user_id)
              × Authenticated client user_id)
    admit_members client none s socket room e m =
        inl (laws.disconnect_members client.id s socket room m)
    admit_members client (some token) s socket room e m = elim (admit_cases client token s) [
      | inr (inr x) ↦ inl (laws.disconnect_members client.id s socket room (rw x at m))
      | inl (payload, v, x) ↦
          admitted_by payload v
            (laws.join_members client.id (user_room payload.sub) s socket room (rw x at m))
      | inr (inl (payload, v, x)) ↦
          let m' =
            laws.disconnect_members client.id (server.join client.id (user_room payload.sub) s).1
              socket room (rw x at m) in
          admitted_by payload v
            (laws.join_members client.id (user_room payload.sub) s socket room m')
    ]
      where
        admitted_by :
            (payload : AccessTokenPayload)
            → verify token ≡ ok payload
            → Memᴰ socket (server.members s room)
              ⊎ ((socket ≡ client.id) × (room ≡ user_room payload.sub))
            → Memᴰ socket (server.members s room)
              ⊎ ((user_id : String) × (socket ≡ client.id)
                  × (room ≡ user_room user_id)
                  × Authenticated client user_id)
        admitted_by payload v (inl there) = inl there
        admitted_by payload v (inr (same, of_user)) = inr (
          payload.sub,
          same,
          of_user,
          record {
            token = token;
            payload = payload;
            presented = e;
            verified = v;
            same_user = refl;
          },
        )

    pub admit_received :
        (client : Client) (t : Option String) (s : S) (socket : String) (e : Emission P)
        → Memᴰ e (server.received (admit server verify client t s).1 socket)
        → Memᴰ e (server.received s socket)
    admit_received client none s socket e m = laws.disconnect_received client.id s socket e m
    admit_received client (some token) s socket e m = elim (admit_cases client token s) [
      | inr (inr x) ↦ laws.disconnect_received client.id s socket e (rw x at m)
      | inl (payload, v, x) ↦
          rw (← laws.join_received client.id (user_room payload.sub) s socket) (rw x at m)
      | inr (inl (payload, v, x)) ↦
          rw (← laws.join_received client.id (user_room payload.sub) s socket) (
            laws.disconnect_received client.id (server.join client.id (user_room payload.sub) s).1
              socket e (rw x at m))
    ]

parts_alike : (parts : List String) → token_of_header parts ≡ token_of_parts parts
parts_alike [] = refl
parts_alike (scheme ∷ []) = refl
parts_alike (scheme ∷ token ∷ rest) = refl

header_alike : (header : Field String) → from_header header ≡ jwt_from_request header
unfolding jwt_from_request
header_alike (value header) = parts_alike (split b' ' header)
header_alike null = refl
header_alike undefined = refl
header_alike absent = refl

-- Without a token of its own in the handshake, a socket is known by its `authorization` header, and
-- by the same token as a request with that header.
pub extract_access_token-header :
    (handshake : Handshake)
    → truthy_field handshake.auth_token ≡ none
    → extract_access_token handshake ≡ jwt_from_request handshake.authorization
unfolding extract_access_token
extract_access_token-header handshake h = rw h (header_alike handshake.authorization)
