-- ===== src/Auth/Laws.antt =====
-- A session that was logged out stays closed.
use nestjs_team_tasks_api.Prelude.{ℕ, ◌≤◌, String, Bool, true, none, ◌≡◌, ◌≢◌, inl, inr, arith}
use nestjs_team_tasks_api.Entities.{RefreshTokenPayload}
use nestjs_team_tasks_api.Exec.{ok}
use nestjs_team_tasks_api.Exec.Cases.{found_cases, result_cases, saved_cases, option_cases}
use nestjs_team_tasks_api.Platform.{Platform, World}
use nestjs_team_tasks_api.Platform.Laws.{RedisLaws}
use nestjs_team_tasks_api.Organizations.Service.{live_id}
use nestjs_team_tasks_api.Auth.Tokens.{JwtLaws, verified_before}
use nestjs_team_tasks_api.Auth.Service.{
  Jwt, at, JwtConfig, refresh_session_key, verify_refresh_or_null, refresh_session, refresh, logout,
}

module _ (p : Platform) (laws : RedisLaws p.client) where
  open p use {users, client}

  -- refreshing a session that Redis does not hold gives no access token
  pub refresh_session_closed :
      (jwt : Jwt) (config : JwtConfig) (payload : RefreshTokenPayload) (w : World p.Db p.Redis)
      (access : String)
      → client.stored w.redis (refresh_session_key payload.sub payload.tid) ≡ none
      → (refresh_session p jwt config payload w).0 ≢ ok access
  unfolding refresh_session
  refresh_session_closed jwt config payload w access closed h =
      elim (found_cases (users.find_one (live_id payload.sub) w.db)) [
        | inl (u, e) ↦
            elim (result_cases
              (client.exists (refresh_session_key payload.sub payload.tid) w.redis)) [
                | inl (n, x) ↦ ground (arith, h, e, x, laws.exists_none _ w.redis n x closed)
                | inr (f, x) ↦ ground (arith, h, e, x)
              ]
        | inr (inl e) ↦ ground (arith, h, e)
        | inr (inr (f, e)) ↦ ground (arith, h, e)
      ]

module _ (p : Platform) (laws : RedisLaws p.client) (jwt : Jwt) where
  open p use {client}

  -- a logout that returns tells the handler to clear the cookie
  pub logout-true :
      (token : String) (w : World p.Db p.Redis) (clear : Bool)
      → (logout p jwt token w).0 ≡ ok clear
      → clear ≡ true
  unfolding logout
  logout-true token w clear out = elim (result_cases jwt.config) [
    | inl (config, c) ↦
        elim (option_cases (verify_refresh_or_null jwt token config.refresh_secret)) [
          | inl (payload, v) ↦
              elim (saved_cases
                (client.del (refresh_session_key payload.sub payload.tid) w.redis)) [
                  | inl (n, redis', d) ↦ ground (arith, out, c, v, d)
                  | inr (f, redis', d) ↦ ground (arith, out, c, v, d)
                ]
          | inr v ↦ ground (arith, out, c, v)
        ]
    | inr (f, c) ↦ ground (arith, out, c)
  ]

  -- Once `logout` has returned for a refresh token, `refresh` gives no access token for it, then or later.
  pub refresh-logout :
      (token : String) (w : World p.Db p.Redis) (clear : Bool) (access : String) (later : ℕ)
      → JwtLaws jwt.service
      → jwt.now ≤ later
      → (logout p jwt token w).0 ≡ ok clear
      → (refresh p (at later jwt) token (logout p jwt token w).1).0 ≢ ok access
  unfolding logout refresh
  refresh-logout token w clear access later tokens after out h = elim (result_cases jwt.config) [
    | inr (f, c) ↦ ground (arith, out, c)
    | inl (config, c) ↦
        elim (option_cases (verify_refresh_or_null (at later jwt) token config.refresh_secret)) [
          | inr v ↦ ground (arith, h, c, v)
          | inl (payload, v) ↦
              let before =
                verified_before jwt tokens later token config.refresh_secret payload after v in
              let key = refresh_session_key payload.sub payload.tid in
              elim (saved_cases (client.del key w.redis)) [
                | inl (n, redis', d) ↦
                    refresh_session_closed p laws (at later jwt) config payload
                      (record w { redis = redis' }) access (laws.del_removes key w.redis redis' n d)
                      (ground (arith, h, c, v, before, d))
                | inr (f, redis', d) ↦ ground (arith, out, c, before, d)
              ]
        ]
  ]
