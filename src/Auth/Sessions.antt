-- ===== src/Auth/Sessions.antt =====
-- What the operations on sessions promise, without the stores: a list of the sessions that may be open,
-- and the steps that a call may take on it.
use mathlib.Core.List.{Memᴰ}
use nestjs_team_tasks_api.Prelude.{
  ℕ, String, Bool, true, not, some, none, List, [], ◌∷◌, ◌==◌, string_eq, ◌≡◌, keep,
}
use nestjs_team_tasks_api.Entities.{RefreshTokenPayload}
use nestjs_team_tasks_api.Exec.{Failure, Result, ok, throw}
use nestjs_team_tasks_api.Platform.{Platform, World}
use nestjs_team_tasks_api.Auth.Service.{
  Jwt, JwtConfig, at, refresh_session_key, verify_refresh_or_null, refresh, logout,
}
use nestjs_team_tasks_api.Auth.Accounts.{LoginDto, RegisterDto, Session, login, register}

-- a call of the service; the first text of a call that opens a session is the random id of its token
pub data Call : Type 0 where
  registers : String → RegisterDto → Call
  logs_in : String → LoginDto → Call
  refreshes : String → Call
  logs_out : String → Call

pub data Reply : Type 0 where
  session : Session → Reply
  access : String → Reply
  cleared : Bool → Reply
  failed : Failure → Reply

abbrev pub reply : {A W : Type 0} → (A → Reply) → Result A × W → Reply × W
reply f (ok a, w) = (f a, w)
reply f (throw e, w) = (failed e, w)

-- the keys of the sessions that may be open
abbrev pub Sessions : Type 0
Sessions = List String

abbrev pub without : String → Sessions → Sessions
without key = keep (λ k. not (k == key))

-- the session that a token names, if it verifies
pub record Names (jwt : Jwt) (token key : String) : Type 0 where
  pub config : JwtConfig
  pub payload : RefreshTokenPayload
  pub configured : jwt.config ≡ ok config
  pub verified : verify_refresh_or_null jwt token config.refresh_secret ≡ some payload
  pub named : key ≡ refresh_session_key payload.sub payload.tid

-- whether a call opens a session whose token has the id
pub data Opens : Call → String → Type 0 where
  by_register : {id : String} {dto : RegisterDto} → Opens (registers id dto) id
  by_login : {id : String} {dto : LoginDto} → Opens (logs_in id dto) id

-- the steps that a call may take, with its reply
pub data Step (jwt : Jwt) : Call → Reply → Sessions → Sessions → Type 0 where
  opened :
      {c : Call} {id : String} {r : Session} {s : Sessions} (user : String)
      → Opens c id
      → Step jwt c (session r) s (refresh_session_key user id ∷ s)
  half_opened :
      {c : Call} {id : String} {e : Failure} {s : Sessions} (user : String)
      → Opens c id
      → Step jwt c (failed e) s (refresh_session_key user id ∷ s)
  refused : {c : Call} {e : Failure} {s : Sessions} → Step jwt c (failed e) s s
  answered :
      {token key answer : String} {s : Sessions}
      → Names jwt token key
      → Memᴰ key s
      → Step jwt (refreshes token) (access answer) s s
  closed :
      {token key : String} {s : Sessions}
      → Names jwt token key
      → Step jwt (logs_out token) (cleared true) s (without key s)
  unnamed :
      {token : String} {s : Sessions} (config : JwtConfig)
      → jwt.config ≡ ok config
      → verify_refresh_or_null jwt token config.refresh_secret ≡ none
      → Step jwt (logs_out token) (cleared true) s s

-- the steps of calls, each with the time at which it is made and its reply
pub data Steps (jwt : Jwt) : List (ℕ × Call × Reply) → Sessions → Sessions → Type 0 where
  stop : {s : Sessions} → Steps jwt [] s s
  step :
      {now : ℕ} {c : Call} {r : Reply} {rest : List (ℕ × Call × Reply)} {s s' s'' : Sessions}
      → Step (at now jwt) c r s s'
      → Steps jwt rest s' s''
      → Steps jwt ((now, c, r) ∷ rest) s s''

module _ (p : Platform) (jwt : Jwt) (compare_password : String → String → Result Bool)
    (commit : p.Db → Result (Unit {0})) where
  unfoldable pub execute : Call → World p.Db p.Redis → Reply × World p.Db p.Redis
  execute (registers id dto) w = reply session (register p jwt commit id dto w)
  execute (logs_in id dto) w = reply session (login p jwt compare_password id dto w)
  execute (refreshes token) w = reply access (refresh p jwt token w)
  execute (logs_out token) w = reply cleared (logout p jwt token w)

module _ (p : Platform) (jwt : Jwt) (compare_password : String → String → Result Bool)
    (commit : p.Db → Result (Unit {0})) where
  unfoldable pub run :
      List (ℕ × Call) → World p.Db p.Redis → List (ℕ × Call × Reply) × World p.Db p.Redis
  unfolding execute
  run [] w = ([], w)
  run ((now, c) ∷ calls) w =
      let (r, w') = execute p (at now jwt) compare_password commit c w in
      let (replies, w'') = run calls w' in ((now, c, r) ∷ replies, w'')
