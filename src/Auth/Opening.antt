-- ===== src/Auth/Opening.antt =====
-- The session that `register` and `login` open.
use nestjs_team_tasks_api.Prelude.{String, some, ◌≡◌, refl, inl, inr, ◌⊎◌, arith}
use nestjs_team_tasks_api.Entities.{User, AccessTokenPayload, load_user}
use nestjs_team_tasks_api.Exec.{Failure, ok, throw, service_unavailable}
use nestjs_team_tasks_api.Exec.Cases.{result_cases, saved_cases}
use nestjs_team_tasks_api.Platform.{Platform, World}
use nestjs_team_tasks_api.Platform.Laws.{RedisLaws}
use nestjs_team_tasks_api.Auth.Service.{Jwt, JwtConfig, refresh_session_key}
use nestjs_team_tasks_api.Auth.Accounts.{Session, open_session}

-- what the access token of a user says
abbrev pub identity : User → AccessTokenPayload
identity u = record { sub = u.id; organization_id = u.organization_id; role = u.role }

module _ (p : Platform) (redis_laws : RedisLaws p.client) (jwt : Jwt) (token_id : String) where
  open p use {users, client}

  -- `s` is a session that was opened for `u`: its tokens are signed, and Redis holds its key
  pub record Opened (u : User) (s : Session) (after : World p.Db p.Redis) : Type 0 where
    pub config : JwtConfig
    pub configured : jwt.config ≡ ok config
    pub access :
        jwt.service.sign jwt.now (identity u) config.access_secret config.access_ttl_sec
        ≡ ok s.access_token
    pub refreshing :
        jwt.service.sign_refresh jwt.now
          (record { sub = u.id; tid = token_id })
          config.refresh_secret
          config.refresh_ttl_sec
        ≡ ok s.refresh_token
    pub ttl : s.refresh_ttl_sec ≡ config.refresh_ttl_sec
    pub held : client.stored after.redis (refresh_session_key u.id token_id) ≡ some "1"

  pub open_session_cases :
      (u : User) (w : World p.Db p.Redis)
      → ((open_session p jwt token_id (load_user u) w).1.db ≡ w.db)
        × (((s : Session) × ((open_session p jwt token_id (load_user u) w).0 ≡ ok s)
              × Opened u s (open_session p jwt token_id (load_user u) w).1)
            ⊎ ((f : Failure) × ((open_session p jwt token_id (load_user u) w).0 ≡ throw f)))
  unfolding open_session
  open_session_cases u w = elim (result_cases jwt.config) [
    | inr (f, c) ↦ (ground (arith, c), inr (f, ground (arith, c)))
    | inl (config, c) ↦
        elim (result_cases
          (jwt.service.sign jwt.now (identity u) config.access_secret config.access_ttl_sec)) [
            | inr (f, a) ↦ (ground (arith, c, a), inr (f, ground (arith, c, a)))
            | inl (access_token, a) ↦
                elim (result_cases (
                  jwt.service.sign_refresh jwt.now (record { sub = u.id; tid = token_id })
                    config.refresh_secret config.refresh_ttl_sec)) [
                      | inr (f, r) ↦ (ground (arith, c, a, r), inr (f, ground (arith, c, a, r)))
                      | inl (refresh_token, r) ↦
                          elim (saved_cases (
                            client.set_ex (refresh_session_key u.id token_id) "1"
                              config.refresh_ttl_sec w.redis)) [
                                | inr (f, redis', x) ↦ (
                                  ground (arith, c, a, r, x),
                                  inr (
                                    service_unavailable "Redis unavailable",
                                    ground (arith, c, a, r, x),
                                  ),
                                )
                                | inl (u', redis', x) ↦
                                    let stored =
                                      redis_laws.set_ex_writes _ "1" config.refresh_ttl_sec w.redis
                                        redis' x in
                                    (
                                      ground (arith, c, a, r, x),
                                      inl (
                                        record {
                                          access_token = access_token;
                                          refresh_token = refresh_token;
                                          refresh_ttl_sec = config.refresh_ttl_sec;
                                        },
                                        ground (arith, c, a, r, x),
                                        record {
                                          config = config;
                                          configured = c;
                                          access = a;
                                          refreshing = r;
                                          ttl = refl;
                                          held = ground (arith, c, a, r, x, stored);
                                        },
                                      ),
                                    )
                              ]
                    ]
          ]
  ]
