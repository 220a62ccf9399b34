-- ===== src/Auth/Login.antt =====
-- Who can log in, and what the session is good for.
use mathlib.Core.List.{Memᴰ}
use nestjs_team_tasks_api.Prelude.{
  ℕ, ◌+◌, ◌≤◌, ◌<◌, String, Bool, true, false, none, some, ◌≡◌, ◌≢◌, ap, ◌∙◌, inl, inr, ◌⊎◌, arith,
  eq_iff,
}
use nestjs_team_tasks_api.Entities.{User, AccessTokenPayload, load_user}
use nestjs_team_tasks_api.Exec.{Failure, Result, ok, throw, unauthorized}
use nestjs_team_tasks_api.Exec.Cases.{found_cases, result_cases}
use nestjs_team_tasks_api.Platform.{Platform, World, Criteria, matches_user}
use nestjs_team_tasks_api.Platform.Laws.{UserLaws, RedisLaws}
use nestjs_team_tasks_api.Organizations.Service.{live_id}
use nestjs_team_tasks_api.Users.Service.{live_email}
use nestjs_team_tasks_api.Auth.Tokens.{JwtLaws}
use nestjs_team_tasks_api.Auth.Service.{
  Jwt, JwtConfig, at, refresh_session_key, verify_refresh_or_null, refresh_session, refresh,
}
use nestjs_team_tasks_api.Auth.Accounts.{LoginDto, Session, open_session, login}
use nestjs_team_tasks_api.Auth.Opening.{identity, Opened, open_session_cases}

pub matches-live_email :
    (email : String) (u : User)
    → matches_user (live_email email) u ≡ true
    → (u.email ≡ email) × (u.deleted_at ≡ none)
matches-live_email email u h = ground (arith, eq_iff u.email email)

module _ (p : Platform) (redis_laws : RedisLaws p.client) (jwt : Jwt) (token_id : String) where
  open p use {users, client}

  module _ (laws : UserLaws p.users) (compare_password : String → String → Result Bool)
      (dto : LoginDto) (w : World p.Db p.Redis) where
    -- a live user has the e-mail, and the password is compared with that user's hash
    abbrev pub Checked : Result Bool → User → Type 0
    Checked outcome u =
        Memᴰ u (users.rows w.db)
        × (u.email ≡ dto.email)
        × (u.deleted_at ≡ none)
        × (compare_password dto.password u.password ≡ outcome)

    -- A login ends in one of four ways; none of them writes the database. A live user has the e-mail and
    -- the password fits its hash: a session is opened for this user, its tokens signed and its key held by
    -- Redis. The credentials are right, but opening the session throws. No live user has the e-mail, or the
    -- password does not fit: the same error, "Invalid credentials", and nothing is written. The database or
    -- the comparison throws, and its error is thrown on.
    pub login_cases :
        ((login p jwt compare_password token_id dto w).1.db ≡ w.db)
        × (((u : User) × Checked (ok true) u
              × (((s : Session) × ((login p jwt compare_password token_id dto w).0 ≡ ok s)
                    × Opened p redis_laws jwt token_id u s
                        (login p jwt compare_password token_id dto w).1)
                  ⊎ ((f : Failure) × ((login p jwt compare_password token_id dto w).0 ≡ throw f))))
            ⊎ (((((u : User)
                      → Memᴰ u (users.rows w.db)
                      → matches_user (live_email dto.email) u ≡ false)
                    ⊎ ((u : User) × Checked (ok false) u))
                  × (login p jwt compare_password token_id dto w
                      ≡ (throw (unauthorized "Invalid credentials"), w)))
                ⊎ ((f : Failure) × ((users.find_one (live_email dto.email) w.db ≡ throw f)
                      ⊎ ((u : User) × Checked (throw f) u))
                    × (login p jwt compare_password token_id dto w ≡ (throw f, w)))))
    unfolding login
    login_cases = elim (found_cases (users.find_one (live_email dto.email) w.db)) [
      | inr (inl e) ↦
          let none_there : (u : User)
              → Memᴰ u (users.rows w.db)
              → matches_user (live_email dto.email) u ≡ false =
            λ u m. laws.find_one_none _ w.db u e m in
          (ground (arith, e), inr (inl (inl none_there, ground (arith, e))))
      | inr (inr (f, e)) ↦ (ground (arith, e), inr (inr (f, inl e, ground (arith, e))))
      | inl (u, e) ↦
          let (stored, m) = laws.find_one_some _ w.db u e in
          let (same, live) = matches-live_email dto.email u m in
          elim (result_cases (compare_password dto.password u.password)) [
            | inr (f, c) ↦ (
              ground (arith, e, c),
              inr (inr (f, inr (u, (stored, same, live, c)), ground (arith, e, c))),
            )
            | inl (false, c) ↦ (
              ground (arith, e, c),
              inr (inl (inr (u, (stored, same, live, c)), ground (arith, e, c))),
            )
            | inl (true, c) ↦
                let opened = open_session_cases p redis_laws jwt token_id u w in
                let at : login p jwt compare_password token_id dto w
                    ≡ open_session p jwt token_id (load_user u) w =
                  ground (arith, e, c) in
                rw at (opened.0, inl (u, (stored, same, live, c), opened.1))
          ]
    ]

    -- refreshing a session that is open, with a token that verifies, in a call with services of its own
    refresh_opened :
        (u : User) (token access : String) (config : JwtConfig) (call : Jwt)
        (after : World p.Db p.Redis)
        → Memᴰ u (users.rows after.db)
        → u.deleted_at ≡ none
        → call.config ≡ ok config
        → call.service.sign call.now (identity u) config.access_secret config.access_ttl_sec
          ≡ ok access
        → call.service.verify call.now token config.refresh_secret
          ≡ ok (record { sub = u.id; tid = token_id })
        → client.stored after.redis (refresh_session_key u.id token_id) ≡ some "1"
        → ((c : Criteria) (f : Failure) → users.find_one c after.db ≢ throw f)
        → ((k : String) (f : Failure) → client.exists k after.redis ≢ throw f)
        → refresh p call token after ≡ (ok access, after)
    unfolding refresh refresh_session verify_refresh_or_null
    refresh_opened u token access config call after stored live c a v held alive up =
        elim (found_cases (users.find_one (live_id u.id) after.db)) [
          | inr (inr (f, e)) ↦ absurd (alive (live_id u.id) f e)
          | inr (inl e) ↦
              let unmatched = laws.find_one_none (live_id u.id) after.db u e stored in
              absurd (ground (arith, unmatched, live, eq_iff u.id u.id))
          | inl (u', e) ↦
              let (stored', m) = laws.find_one_some (live_id u.id) after.db u' e in
              let same : u'.id ≡ u.id = ground (arith, m, eq_iff u'.id u.id) in
              let it : u' ≡ u = laws.primary_key after.db u' u stored' stored same in
              let e' : users.find_one (live_id u.id) after.db ≡ ok (some u) =
                e ∙ ap (λ (x : User). ok (some x)) it in
              elim (result_cases (client.exists (refresh_session_key u.id token_id) after.redis)) [
                | inr (f, x) ↦ absurd (up (refresh_session_key u.id token_id) f x)
                | inl (n, x) ↦
                    let one =
                      redis_laws.exists_some (refresh_session_key u.id token_id) "1" after.redis n x
                        held in
                    ground (arith, c, a, v, e', x, one)
              ]
        ]

    pub login-Opened :
        (s : Session)
        → (login p jwt compare_password token_id dto w).0 ≡ ok s
        → (u : User) × Checked (ok true) u
          × Opened p redis_laws jwt token_id u s (login p jwt compare_password token_id dto w).1
    login-Opened s h = elim login_cases.1 [
      | inl (u, checked, inl (s', e, opened)) ↦
          let it : s' ≡ s = ground (arith, e, h) in (u, checked, rw it at opened)
      | inl (u, checked, inr (f, e)) ↦ absurd (ground (arith, e, h))
      | inr (inl (why, e)) ↦ absurd (ground (arith, e, h))
      | inr (inr (f, why, e)) ↦ absurd (ground (arith, e, h))
    ]

    -- A session that `login` returned can be refreshed in the state that the login left, until its lifetime
    -- ends: while the database and Redis answer and signing does not fail, `refresh` of its refresh token
    -- returns an access token, the one that is signed at the time of the refresh for the user who logged in,
    -- and writes nothing.
    pub login-refresh :
        (s : Session) (later : ℕ)
        → JwtLaws jwt.service
        → ((payload : AccessTokenPayload) (secret : String) (ttl : ℕ) (f : Failure)
            → jwt.service.sign later payload secret ttl ≢ throw f)
        → ((c : Criteria) (f : Failure) → users.find_one c w.db ≢ throw f)
        → ((k : String) (redis : p.Redis) (f : Failure) → client.exists k redis ≢ throw f)
        → jwt.now ≤ later
        → later < jwt.now + s.refresh_ttl_sec
        → (login p jwt compare_password token_id dto w).0 ≡ ok s
        → (u : User) × Checked (ok true) u
          × (config : JwtConfig) × (jwt.config ≡ ok config)
          × (access : String) × (jwt.service.sign later
                (identity u)
                config.access_secret
                config.access_ttl_sec
              ≡ ok access)
          × (refresh p
                (at later jwt)
                s.refresh_token
                (login p jwt compare_password token_id dto w).1
              ≡ (ok access, (login p jwt compare_password token_id dto w).1))
    login-refresh s later tokens signs alive up after before h =
        let (u, checked, opened) = login-Opened s h in
        let config = opened.config in
        let verified =
          tokens.sign_verifies _ _ _ _ jwt.now later opened.refreshing after
            (rw (← opened.ttl) before) in
        elim (result_cases
          (jwt.service.sign later (identity u) config.access_secret config.access_ttl_sec)) [
            | inr (f, a) ↦ absurd (signs _ _ _ f a)
            | inl (access, a) ↦ (
              u,
              checked,
              config,
              opened.configured,
              access,
              a,
              refresh_opened u s.refresh_token access config (at later jwt)
                  (login p jwt compare_password token_id dto w).1 (rw login_cases.0 checked.0)
                  checked.2 opened.configured a verified opened.held (rw login_cases.0 alive)
                  (λ k f. up k (login p jwt compare_password token_id dto w).1.redis f),
            )
          ]
