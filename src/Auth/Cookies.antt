-- ===== src/Auth/Cookies.antt =====
-- The cookie that carries a session between the client and the handlers.
use nestjs_team_tasks_api.Prelude.{
  ℕ, ◌*◌, String, Bool, true, [], ◌∷◌, ◌++◌, ◌≡◌, ◌↔◌, refl, ◌⊎◌, inl, inr, arith, eq_iff,
}
use nestjs_team_tasks_api.Js.{value}
use nestjs_team_tasks_api.Exec.{Exec, Failure, Result, ok, throw}
use nestjs_team_tasks_api.Exec.Cases.{result_cases, saved_cases}
use nestjs_team_tasks_api.Platform.{Platform, World}
use nestjs_team_tasks_api.Platform.Laws.{UserLaws, RedisLaws}
use nestjs_team_tasks_api.Auth.Service.{Jwt, at}
use nestjs_team_tasks_api.Auth.Accounts.{LoginDto, RegisterDto, Session, login, register}
use nestjs_team_tasks_api.Auth.Controller.{
  Cookie, set_cookie, Exchange, AccessTokenResponseDto, with_session, refresh_cookie,
  register_handler, login_handler, logout_handler,
}

-- a cookie that scripts cannot read, that goes to the auth routes only, and that crosses sites only in
-- production, where it is sent over HTTPS only
pub record Sealed (node_env : String) (s : Session) (c : Cookie) : Type 0 where
  pub content : c.content ≡ s.refresh_token
  pub hidden : c.http_only ≡ true
  pub routes : c.path ≡ "/auth"
  pub lifetime : c.max_age ≡ s.refresh_ttl_sec * 1000
  pub secure_iff : (c.secure ≡ true) ↔ (node_env ≡ "production")
  pub cross_site : c.same_site ≡ "none" → c.secure ≡ true

refresh_cookie-Sealed :
    (env : String) (s : Session)
    → Sealed env s (refresh_cookie env s.refresh_token s.refresh_ttl_sec)
refresh_cookie-Sealed env s = record {
  content = refl;
  hidden = refl;
  routes = refl;
  lifetime = refl;
  secure_iff = ground (arith, eq_iff env "production");
  cross_site = λ h. ground (arith, h, eq_iff "none" "lax");
}

module _ {W : Type 0} (node_env : Result String) (x : Exchange W) where
  -- how a handler ends that answers with the session of a service's method
  abbrev pub Answers : Exec (Exchange W) AccessTokenResponseDto → Exec W Session → Type 0
  Answers handler service =
      ((s : Session) × (env : String) × (c : Cookie) × ((service x.world).0 ≡ ok s)
        × (node_env ≡ ok env)
        × Sealed env s c
        × (handler x ≡ (
          ok (record { access_token = s.access_token }),
          record { world = (service x.world).1; cookies = x.cookies ++ set_cookie c ∷ [] },
        )))
      ⊎ ((f : Failure) × (((service x.world).0 ≡ throw f) ⊎ (node_env ≡ throw f))
          × (handler x ≡ (throw f, record { world = (service x.world).1; cookies = x.cookies })))

  with_session-Answers :
      (service : Exec W Session) → Answers (with_session node_env service) service
  unfolding with_session
  with_session-Answers service = elim (saved_cases (service x.world)) [
    | inr (f, w, e) ↦ inr (f, inl (ground (arith, e)), ground (arith, e))
    | inl (s, w, e) ↦ elim (result_cases node_env) [
      | inr (f, n) ↦ inr (f, inr n, ground (arith, e, n))
      | inl (env, n) ↦ inl (
        s,
        env,
        refresh_cookie env s.refresh_token s.refresh_ttl_sec,
        ground (arith, e),
        n,
        refresh_cookie-Sealed env s,
        ground (arith, e, n),
      )
    ]
  ]

module _ (p : Platform) (jwt : Jwt) (node_env : Result String) (token_id : String)
    (x : Exchange (World p.Db p.Redis)) where
  login_handler-Answers :
      (compare_password : String → String → Result Bool) (credentials : LoginDto)
      → Answers node_env x
          (login_handler p jwt node_env compare_password token_id credentials)
          (login p jwt compare_password token_id credentials)
  unfolding login_handler
  login_handler-Answers compare_password credentials =
      with_session-Answers node_env x (login p jwt compare_password token_id credentials)

  -- The handlers `register` and `login` answer with the access token of the session that the service
  -- opened and set one cookie, with the session's refresh token: hidden from scripts, sent to the auth
  -- routes only, kept as long as the session, and secure exactly in production. If the service throws, or
  -- the configuration does, they throw the same and set no cookie.
  pub handlers-Answers :
      (commit : p.Db → Result (Unit {0})) (signup : RegisterDto)
      (compare_password : String → String → Result Bool) (credentials : LoginDto)
      → Answers node_env x
          (register_handler p jwt node_env commit token_id signup)
          (register p jwt commit token_id signup)
        × Answers node_env x
            (login_handler p jwt node_env compare_password token_id credentials)
            (login p jwt compare_password token_id credentials)
  unfolding register_handler
  handlers-Answers commit signup compare_password credentials = (
    with_session-Answers node_env x (register p jwt commit token_id signup),
    login_handler-Answers compare_password credentials,
  )

module _ (p : Platform) (users_laws : UserLaws p.users) (redis_laws : RedisLaws p.client)
    (jwt : Jwt) (env token_id : String) (compare_password : String → String → Result Bool)
    (dto : LoginDto) (x : Exchange (World p.Db p.Redis)) where
  open p use {users, client}

  -- what the client and the state are after a login
  abbrev pub logged_in : Exchange (World p.Db p.Redis)
  logged_in = (login_handler p jwt (ok env) compare_password token_id dto x).1

  -- what they are once the cookie has logged out, at a later time
  abbrev pub logged_out : ℕ → Cookie → Exchange (World p.Db p.Redis)
  logged_out time c = (logout_handler p (at time jwt) (value c.content) logged_in).1
