-- ===== src/Memory/Sockets.antt =====
-- A server of sockets in memory: the sockets of each room, and what each socket was sent.
use mathlib.Core.List.{Memᴰ}
use nestjs_team_tasks_api.Prelude.{
  String, true, not, List, [], ◌∷◌, ◌≡◌, refl, sym, ap, inl, inr, arith, eq_iff, keep, has,
  mem-keep, mem-if, Bool-cases, ◌==◌, string_eq, if◌then◌else◌,
}
use nestjs_team_tasks_api.Exec.{ok}
use nestjs_team_tasks_api.Events.Server.{SocketServer, ServerLaws}

pub record Sockets (E : Type 0) : Type 0 where
  pub joined : String → List String
  pub inbox : String → List E

abbrev pub no_sockets : {E : Type 0} → Sockets E
no_sockets = record { joined = λ room. []; inbox = λ socket. [] }

abbrev pub socket_server : (E : Type 0) → SocketServer (Sockets E) E
socket_server E = record {
  members = λ s room. s.joined room;
  received = λ s socket. s.inbox socket;
  join = λ socket room s.
      (ok tt, record s { joined = λ r. if room == r then socket ∷ s.joined r else s.joined r });
  disconnect = λ socket s. record s { joined = λ r. keep (λ x. not (x == socket)) (s.joined r) };
  emit_to = λ room e s. record s {
    inbox = λ x. if has (s.joined room) x then e ∷ s.inbox x else s.inbox x;
  };
}

Memᴰ-has : (xs : List String) (x : String) → has xs x ≡ true → Memᴰ x xs
Memᴰ-has [] x h = absurd (ground (arith, h))
Memᴰ-has (y ∷ xs) x h = elim (Bool-cases (y == x)) [
  | inl e ↦ Memᴰ.head (sym ((eq_iff y x).0 e))
  | inr e ↦ Memᴰ.tail (Memᴰ-has xs x (ground (arith, h, e)))
]

has-Memᴰ : (xs : List String) (x : String) → Memᴰ x xs → has xs x ≡ true
has-Memᴰ [] x m = elim m [ ]
has-Memᴰ (y ∷ xs) x (Memᴰ.head e) = ground (arith, e, eq_iff y x)
has-Memᴰ (y ∷ xs) x (Memᴰ.tail m) = ground (arith, has-Memᴰ xs x m)

pub socket_server-ServerLaws : (E : Type 0) → ServerLaws (socket_server E)
socket_server-ServerLaws E = record {
  join_members = λ socket room s other room' m.
      elim (mem-if (room == room') socket (s.joined room') m) [
        | inl (e, same) ↦ inr (same, sym ((eq_iff room room').0 e))
        | inr there ↦ inl there
      ];
  join_joins = λ socket room s s' h.
      rw (← ap (λ x. x.1.joined room) h, (eq_iff room room).1 refl) (Memᴰ.head refl);
  join_received = λ socket room s other. refl;
  disconnect_members =
      λ socket s other room m. (mem-keep (λ x. not (x == socket)) (s.joined room) m).1;
  disconnect_received = λ socket s other e m. m;
  emit_members = λ room e s room'. refl;
  emit_received = λ room e s other e' m.
      elim (mem-if (has (s.joined room) other) e (s.inbox other) m) [
        | inl (h, same) ↦ inr (same, Memᴰ-has (s.joined room) other h)
        | inr there ↦ inl there
      ];
  emit_reaches = λ room e s socket m. rw (has-Memᴰ (s.joined room) socket m) (Memᴰ.head refl);
}
