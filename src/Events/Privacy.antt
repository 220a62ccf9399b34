-- ===== src/Events/Privacy.antt =====
-- Who receives the events of a user.
use mathlib.Core.List.{Memᴰ}
use nestjs_team_tasks_api.Prelude.{
  String, some, List, [], ◌∷◌, ◌≡◌, refl, sym, ◌∙◌, ◌⊎◌, inl, inr, arith,
}
use nestjs_team_tasks_api.Entities.{AccessTokenPayload}
use nestjs_team_tasks_api.Exec.{Result, ok}
use nestjs_team_tasks_api.Events.Server.{SocketServer, ServerLaws}
use nestjs_team_tasks_api.Events.Gateway.{
  Client, Emission, user_room, extract_access_token, emit_to_user, handle_connection, admit,
}
use nestjs_team_tasks_api.Events.Admission.{
  user_room-injective, Authenticated, admit_members, admit_received,
}

-- what happens at the server: a socket connects, a socket leaves, the program sends a user an event
pub data Step (P : Type 0) : Type 0 where
  connect : Client → Step P
  leave : String → Step P
  send : String → String → P → Step P

module _ {S P : Type 0} (server : SocketServer S (Emission P))
    (verify : String → Result AccessTokenPayload) where
  unfoldable pub perform : Step P → S → S
  unfolding handle_connection emit_to_user
  perform (connect client) s = (handle_connection server verify client s).1
  perform (leave socket) s = server.disconnect socket s
  perform (send user_id event payload) s = (emit_to_user server user_id event payload s).1

  unfoldable pub run : List (Step P) → S → S
  unfolding perform
  run [] s = s
  run (step ∷ steps) s = run steps (perform step s)

  -- a socket of that id connected as the user
  pub record Admitted (steps : List (Step P)) (socket user_id : String) : Type 0 where
    pub client : Client
    pub connected : Memᴰ (connect client) steps
    pub same_socket : client.id ≡ socket
    pub authenticated : Authenticated server verify client user_id

  pub record Sent (steps : List (Step P)) (socket : String) (e : Emission P) : Type 0 where
    pub user_id : String
    pub sent : Memᴰ (send user_id e.event e.payload) steps
    pub admitted : Admitted steps socket user_id

  module _ (laws : ServerLaws server) where
    -- each socket in a user's room, and each that was sent an event, belongs to that user
    record Safe (all : List (Step P)) (s : S) : Type 0 where
      rooms :
          (socket user_id : String)
          → Memᴰ socket (server.members s (user_room user_id))
          → Admitted all socket user_id
      events :
          (socket : String) (e : Emission P) → Memᴰ e (server.received s socket) → Sent all socket e

    connect_rooms :
        (all : List (Step P)) (client : Client) (s : S) (socket user_id : String)
        → Memᴰ (connect client) all
        → Safe all s
        → Memᴰ socket (server.members s (user_room user_id))
          ⊎ ((user : String) × (socket ≡ client.id)
              × (user_room user_id ≡ user_room user)
              × Authenticated server verify client user)
        → Admitted all socket user_id
    connect_rooms all client s socket user_id here safe (inl there) =
        safe.rooms socket user_id there
    connect_rooms all client s socket user_id here safe (inr (user, same, room, a)) =
        let user_is = user_room-injective user_id user room in
        record {
          client = client;
          connected = here;
          same_socket = sym same;
          authenticated = record {
            token = a.token;
            payload = a.payload;
            presented = a.presented;
            verified = a.verified;
            same_user = a.same_user ∙ sym user_is;
          };
        }

    send_events :
        (all : List (Step P)) (user_id event : String) (payload : P) (s : S) (socket : String)
        (e : Emission P)
        → Memᴰ (send user_id event payload) all
        → Safe all s
        → Memᴰ e (server.received s socket)
          ⊎ ((e ≡ record { event = event; payload = payload })
              × Memᴰ socket (server.members s (user_room user_id)))
        → Sent all socket e
    send_events all user_id event payload s socket e here safe (inl there) =
        safe.events socket e there
    send_events all user_id event payload s socket e here safe (inr (same, inside)) = record {
      user_id = user_id;
      sent = rw same here;
      admitted = safe.rooms socket user_id inside;
    }

    perform-Safe :
        (all : List (Step P)) (step : Step P) (s : S)
        → Memᴰ step all
        → Safe all s
        → Safe all (perform step s)
    unfolding perform handle_connection emit_to_user
    perform-Safe all (connect client) s here safe = record {
      rooms = λ socket user_id m. connect_rooms all client s socket user_id here safe (
          admit_members server verify laws client (extract_access_token client.handshake) s socket
            (user_room user_id) refl m);
      events = λ socket e m. safe.events socket e (
          admit_received server verify laws client (extract_access_token client.handshake) s socket
            e m);
    }
    perform-Safe all (leave id) s here safe = record {
      rooms = λ socket user_id m.
          safe.rooms socket user_id (laws.disconnect_members id s socket (user_room user_id) m);
      events = λ socket e m. safe.events socket e (laws.disconnect_received id s socket e m);
    }
    perform-Safe all (send user_id event payload) s here safe = record {
      rooms = λ socket other m. safe.rooms socket other (
          rw
            (← laws.emit_members (user_room user_id) (record { event = event; payload = payload }) s
              (user_room other))
            m);
      events = λ socket e m. send_events all user_id event payload s socket e here safe (
          laws.emit_received (user_room user_id) (record { event = event; payload = payload }) s
            socket e m);
    }

    run-Safe :
        (all steps : List (Step P)) (s : S)
        → ((step : Step P) → Memᴰ step steps → Memᴰ step all)
        → Safe all s
        → Safe all (run steps s)
    unfolding run
    run-Safe all [] s within safe = safe
    run-Safe all (step ∷ steps) s within safe =
        run-Safe all steps (perform step s) (λ x m. within x (Memᴰ.tail m))
          (perform-Safe all step s (within step (Memᴰ.head refl)) safe)

    nobody : {A : Type 0} {x : A} → Memᴰ x [] → ⊥
    nobody m = elim m [ ]

    start-Safe :
        (steps : List (Step P)) (s : S)
        → ((room : String) → server.members s room ≡ [])
        → ((socket : String) → server.received s socket ≡ [])
        → Safe steps s
    start-Safe steps s no_members no_events = record {
      rooms = λ socket user_id m. absurd (nobody (rw (no_members (user_room user_id)) at m));
      events = λ socket e m. absurd (nobody (rw (no_events socket) at m));
    }

    -- whoever is in a user's room, after any steps
    pub run-rooms :
        (steps : List (Step P)) (s : S)
        → ((room : String) → server.members s room ≡ [])
        → ((socket : String) → server.received s socket ≡ [])
        → (socket user_id : String) → Memᴰ socket (server.members (run steps s) (user_room user_id))
        → Admitted steps socket user_id
    run-rooms steps s no_members no_events =
        (run-Safe steps steps s (λ x k. k) (start-Safe steps s no_members no_events)).rooms

    -- From a server with no sockets, whatever sockets connect and leave and whatever is sent, in any
    -- order: each event that a socket has received was sent to a user, and a socket of that id connected
    -- with a token that verifies as this user's.
    pub run-private :
        (steps : List (Step P)) (s : S)
        → ((room : String) → server.members s room ≡ [])
        → ((socket : String) → server.received s socket ≡ [])
        → (socket : String) (e : Emission P) → Memᴰ e (server.received (run steps s) socket)
        → Sent steps socket e
    run-private steps s no_members no_events =
        (run-Safe steps steps s (λ x k. k) (start-Safe steps s no_members no_events)).events

    -- A client whose token verifies, and whose join succeeds, receives what is sent to its user next.
    pub emit_to_user-reaches :
        (client : Client) (token : String) (payload : AccessTokenPayload) (s s' : S)
        (event : String) (p : P)
        → extract_access_token client.handshake ≡ some token
        → verify token ≡ ok payload
        → server.join client.id (user_room payload.sub) s ≡ (ok tt, s')
        → Memᴰ
            (record { event = event; payload = p })
            (server.received (run (connect client ∷ send payload.sub event p ∷ []) s) client.id)
    unfolding run perform handle_connection emit_to_user
    emit_to_user-reaches client token payload s s' event p presented verified joined =
        let there : (admit server verify client (extract_access_token client.handshake) s).1 ≡ s' =
          ground (arith, presented, verified, joined) in
        rw there (
          laws.emit_reaches (user_room payload.sub) (record { event = event; payload = p }) s'
            client.id (laws.join_joins client.id (user_room payload.sub) s s' joined))
