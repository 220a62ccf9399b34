-- ===== src/Auth/Service.antt =====
-- src/modules/auth/auth.service.ts: the operations on a refresh token, and `me`. The JWT library and
-- its configuration are a parameter.
use nestjs_team_tasks_api.Prelude.{ℕ, String, Bool, true, Option, none, some, [], ◌∷◌, nat_eqb}
use nestjs_team_tasks_api.Js.{template}
use nestjs_team_tasks_api.Entities.{UserRole, AccessTokenPayload, RefreshTokenPayload}
use nestjs_team_tasks_api.Exec.{
  Exec, Result, ok, throw, unauthorized, service_unavailable, pure, fail, lift, or_throw, throw_if,
  try_catch, ◌>>=◌, ◌>>◌,
}
use nestjs_team_tasks_api.Platform.{Platform, World, query, ask_redis, run_redis}
use nestjs_team_tasks_api.Organizations.Service.{live_id}

-- the configuration at `jwt`
pub record JwtConfig : Type 0 where
  pub access_secret : String
  pub access_ttl_sec : ℕ
  pub refresh_secret : String
  pub refresh_ttl_sec : ℕ

-- `JwtService` at a time in seconds, its first argument. A token holds the time at which it was signed and
-- the one at which it ends, so what `sign` returns depends on the time, and `verify`, which throws on a token
-- that is not valid, does too.
pub record JwtService : Type 0 where
  pub verify : ℕ → String → String → Result RefreshTokenPayload
  pub sign : ℕ → AccessTokenPayload → String → ℕ → Result String
  pub sign_refresh : ℕ → RefreshTokenPayload → String → ℕ → Result String

-- `ConfigService` at `jwt`, which is read once at the start, `JwtService`, and the time of a call
pub record Jwt : Type 0 where
  pub config : Result JwtConfig
  pub service : JwtService
  pub now : ℕ

-- the same services in a call at another time
abbrev pub at : ℕ → Jwt → Jwt
at now jwt = record jwt { now = now }

pub record MeResponseDto : Type 0 where
  pub id : String
  pub email : String
  pub organization_id : String
  pub role : UserRole

unfoldable pub refresh_session_key : String → String → String
refresh_session_key user_id token_id = template ("refresh:" ∷ user_id ∷ ":" ∷ token_id ∷ [])

abbrev or_null : Result RefreshTokenPayload → Option RefreshTokenPayload
or_null (ok payload) = some payload
or_null (throw e) = none

unfoldable pub verify_refresh_or_null : Jwt → String → String → Option RefreshTokenPayload
verify_refresh_or_null jwt token secret = or_null (jwt.service.verify jwt.now token secret)

module _ (p : Platform) (jwt : Jwt) where
  open p use {users, client}

  abbrev Action : Type 0 → Type 0
  Action A = Exec (World p.Db p.Redis) A

  -- `.catch(() => { throw new ServiceUnavailableException('Redis unavailable') })`
  abbrev pub or_unavailable : {A : Type 0} → Action A → Action A
  or_unavailable call = try_catch call (λ _. fail (service_unavailable "Redis unavailable"))

  -- the part of `refresh` after the token is verified
  unfoldable pub refresh_session : JwtConfig → RefreshTokenPayload → Action String
  refresh_session config payload = do
    found ← query (users.find_one (live_id payload.sub))
    user ← or_throw found (unauthorized "Invalid refresh token")
    keys_number ←
        or_unavailable (ask_redis (client.exists (refresh_session_key payload.sub payload.tid)))
    throw_if (nat_eqb keys_number 0) (unauthorized "Invalid refresh token")
    lift (
        jwt.service.sign jwt.now
          (record { sub = user.id; organization_id = user.organization_id; role = user.role })
          config.access_secret config.access_ttl_sec)

  abbrev pub refresh_payload : JwtConfig → Option RefreshTokenPayload → Action String
  refresh_payload config none = fail (unauthorized "Invalid refresh token")
  refresh_payload config (some payload) = refresh_session config payload

  unfoldable pub refresh : String → Action String
  unfolding refresh_session
  refresh refresh_token = do
    config ← lift jwt.config
    refresh_payload config (verify_refresh_or_null jwt refresh_token config.refresh_secret)

  abbrev pub logout_payload : Option RefreshTokenPayload → Action Bool
  logout_payload none = pure true
  logout_payload (some payload) = do
    or_unavailable (run_redis (client.del (refresh_session_key payload.sub payload.tid)))
    pure true

  -- returns `shouldClearCookie`
  unfoldable pub logout : String → Action Bool
  logout refresh_token = do
    config ← lift jwt.config
    logout_payload (verify_refresh_or_null jwt refresh_token config.refresh_secret)

  unfoldable pub me : String → Action MeResponseDto
  me user_id = do
    found ← query (users.find_one (live_id user_id))
    user ← or_throw found (unauthorized "Invalid credentials")
    pure (record {
      id = user.id;
      email = user.email;
      organization_id = user.organization_id;
      role = user.role;
    })
