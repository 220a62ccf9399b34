-- ===== src/Auth/Controller.antt =====
-- src/modules/auth/auth.controller.ts: the handlers, which keep the refresh token in a cookie. Express
-- is a list of the `Set-Cookie` headers of a response; the configuration's `nodeEnv` is a parameter.
use nestjs_team_tasks_api.Prelude.{
  ℕ, ◌*◌, String, Bool, true, false, Option, none, some, List, [], ◌∷◌, ◌++◌, ◌==◌, string_eq,
  if◌then◌else◌,
}
use nestjs_team_tasks_api.Js.{Field, truthy_field}
use nestjs_team_tasks_api.Entities.{AccessTokenPayload}
use nestjs_team_tasks_api.Exec.{Exec, Result, ok, unauthorized, pure, fail, lift, zoom, ◌>>=◌, ◌>>◌}
use nestjs_team_tasks_api.Platform.{Platform, World}
use nestjs_team_tasks_api.Guards.{authorized}
use nestjs_team_tasks_api.Auth.Service.{Jwt, MeResponseDto, refresh, logout, me}
use nestjs_team_tasks_api.Auth.Accounts.{LoginDto, RegisterDto, Session, login, register}

pub record Cookie : Type 0 where
  pub name : String
  pub content : String
  pub http_only : Bool
  pub secure : Bool
  pub same_site : String
  pub max_age : ℕ
  pub path : String

pub data CookieChange : Type 0 where
  set_cookie : Cookie → CookieChange
  clear_cookie : String → String → CookieChange

-- the world, and the cookies that the response changes, in their order
pub record Exchange (W : Type 0) : Type 0 where
  pub world : W
  pub cookies : List CookieChange

pub record AccessTokenResponseDto : Type 0 where
  pub access_token : String

pub record OkResponseDto : Type 0 where
  pub is_ok : Bool

abbrev pub refresh_cookie : String → String → ℕ → Cookie
refresh_cookie node_env refresh_token refresh_ttl_sec = record {
  name = "refresh_token";
  content = refresh_token;
  http_only = true;
  secure = if node_env == "production" then true else false;
  same_site = if node_env == "production" then "none" else "lax";
  max_age = refresh_ttl_sec * 1000;
  path = "/auth";
}

module _ {W : Type 0} where
  abbrev pub in_service : {A : Type 0} → Exec W A → Exec (Exchange W) A
  in_service = zoom (λ x. x.world) (λ w x. record x { world = w })

  abbrev pub change_cookie : CookieChange → Exec (Exchange W) (Unit {0})
  change_cookie change x = (ok tt, record x { cookies = x.cookies ++ change ∷ [] })

  abbrev pub set_refresh_token_cookie : Result String → String → ℕ → Exec (Exchange W) (Unit {0})
  set_refresh_token_cookie node_env refresh_token refresh_ttl_sec = do
    env ← lift node_env
    change_cookie (set_cookie (refresh_cookie env refresh_token refresh_ttl_sec))

  -- the body of the handlers `register` and `login`
  unfoldable pub with_session :
      Result String → Exec W Session → Exec (Exchange W) AccessTokenResponseDto
  with_session node_env service = do
    session ← in_service service
    set_refresh_token_cookie node_env session.refresh_token session.refresh_ttl_sec
    pure (record { access_token = session.access_token })

module _ (p : Platform) (jwt : Jwt) where
  abbrev Handler : Type 0 → Type 0
  Handler A = Exec (Exchange (World p.Db p.Redis)) A

  unfoldable pub register_handler :
      Result String
      → (p.Db → Result (Unit {0}))
      → String
      → RegisterDto
      → Handler AccessTokenResponseDto
  unfolding with_session
  register_handler node_env commit token_id dto =
      with_session node_env (register p jwt commit token_id dto)

  unfoldable pub login_handler :
      Result String
      → (String → String → Result Bool)
      → String
      → LoginDto
      → Handler AccessTokenResponseDto
  unfolding with_session
  login_handler node_env compare_password token_id dto =
      with_session node_env (login p jwt compare_password token_id dto)

  abbrev pub refresh_with : Option String → Handler AccessTokenResponseDto
  refresh_with none = fail (unauthorized "Missing refresh token")
  refresh_with (some refresh_token) = do
    access_token ← in_service (refresh p jwt refresh_token)
    pure (record { access_token = access_token })

  -- the cookie `refresh_token` of the request
  unfoldable pub refresh_handler : Field String → Handler AccessTokenResponseDto
  refresh_handler cookie = refresh_with (truthy_field cookie)

  abbrev pub clear_if : Bool → Handler (Unit {0})
  clear_if true = change_cookie (clear_cookie "refresh_token" "/auth")
  clear_if false = pure tt

  abbrev pub logout_with : Option String → Handler OkResponseDto
  logout_with none = pure (record { is_ok = true })
  logout_with (some refresh_token) = do
    should_clear_cookie ← in_service (logout p jwt refresh_token)
    clear_if should_clear_cookie
    pure (record { is_ok = true })

  unfoldable pub logout_handler : Field String → Handler OkResponseDto
  logout_handler cookie = logout_with (truthy_field cookie)

  unfoldable pub me_handler : AccessTokenPayload → Handler MeResponseDto
  unfolding authorized
  me_handler = authorized [] (λ user. in_service (me p jwt user.sub))
