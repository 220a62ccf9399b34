-- ===== src/Events/Server.antt =====
-- The server of socket.io, which the gateway calls: rooms of sockets, and what each socket is sent. It
-- is a parameter, with its documented behaviour as laws.
use mathlib.Core.List.{Memᴰ}
use nestjs_team_tasks_api.Prelude.{String, List, ◌≡◌, ◌⊎◌}
use nestjs_team_tasks_api.Exec.{Result, ok}

pub record SocketServer (S E : Type 0) : Type 0 where
  -- the sockets of a room, and what was sent to a socket; the program calls neither
  pub members : S → String → List String
  pub received : S → String → List E
  -- `socket.join(room)`, `socket.disconnect(true)` and `server.to(room).emit(event)`
  pub join : String → String → S → Result (Unit {0}) × S
  pub disconnect : String → S → S
  pub emit_to : String → E → S → S

pub record ServerLaws {S E : Type 0} (server : SocketServer S E) : Type 0 where
  pub join_members :
      (socket room : String) (s : S) (other room' : String)
      → Memᴰ other (server.members (server.join socket room s).1 room')
      → Memᴰ other (server.members s room') ⊎ ((other ≡ socket) × (room' ≡ room))
  pub join_joins :
      (socket room : String) (s s' : S)
      → server.join socket room s ≡ (ok tt, s')
      → Memᴰ socket (server.members s' room)
  pub join_received :
      (socket room : String) (s : S) (other : String)
      → server.received (server.join socket room s).1 other ≡ server.received s other
  pub disconnect_members :
      (socket : String) (s : S) (other room : String)
      → Memᴰ other (server.members (server.disconnect socket s) room)
      → Memᴰ other (server.members s room)
  pub disconnect_received :
      (socket : String) (s : S) (other : String) (e : E)
      → Memᴰ e (server.received (server.disconnect socket s) other)
      → Memᴰ e (server.received s other)
  pub emit_members :
      (room : String) (e : E) (s : S) (room' : String)
      → server.members (server.emit_to room e s) room' ≡ server.members s room'
  pub emit_received :
      (room : String) (e : E) (s : S) (other : String) (e' : E)
      → Memᴰ e' (server.received (server.emit_to room e s) other)
      → Memᴰ e' (server.received s other) ⊎ ((e' ≡ e) × Memᴰ other (server.members s room))
  pub emit_reaches :
      (room : String) (e : E) (s : S) (socket : String)
      → Memᴰ socket (server.members s room)
      → Memᴰ e (server.received (server.emit_to room e s) socket)
