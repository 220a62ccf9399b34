-- ===== src/Auth/Covers/Openings.antt =====
-- Which sessions Redis holds after `register` and `login`.
use nestjs_team_tasks_api.Prelude.{
  String, Bool, true, false, ◌∷◌, ◌≡◌, sym, ap, ◌∙◌, ◌⊎◌, inl, inr, arith, string_eq,
}
use nestjs_team_tasks_api.Entities.{UserObject, load_user}
use nestjs_team_tasks_api.Exec.{Failure, Result, throw, unauthorized, conflict}
use nestjs_team_tasks_api.Exec.Cases.{found_cases, result_cases, saved_cases}
use nestjs_team_tasks_api.Platform.{Platform, World}
use nestjs_team_tasks_api.Platform.Laws.{RedisLaws}
use nestjs_team_tasks_api.Users.Service.{live_email}
use nestjs_team_tasks_api.Auth.Service.{Jwt, refresh_session_key}
use nestjs_team_tasks_api.Auth.Accounts.{
  LoginDto, RegisterDto, Session, access_payload, live_name, create_account, transaction,
  open_session, login, register,
}
use nestjs_team_tasks_api.Auth.Sessions.{Sessions}
use nestjs_team_tasks_api.Auth.Covers.{Covers, set_ex-Covers}

module _ (p : Platform) (laws : RedisLaws p.client) (jwt : Jwt) where
  open p use {users, organizations, client}

  -- opening a session: its key is added, or nothing is written
  abbrev pub Opening : String → Sessions → Result Session × World p.Db p.Redis → Type 0
  Opening id s ended =
      ((user : String) × Covers p laws ended.1.redis (refresh_session_key user id ∷ s))
      ⊎ ((f : Failure) × (ended.0 ≡ throw f) × Covers p laws ended.1.redis s)

  refusal :
      (id : String) (s : Sessions) (ended : Result Session × World p.Db p.Redis) (f : Failure)
      (w : World p.Db p.Redis)
      → Covers p laws w.redis s
      → ended ≡ (throw f, w)
      → Opening id s ended
  refusal id s ended f w covers e = inr (f, ap (λ x. x.0) e, rw (ap (λ x. x.1.redis) e) covers)

  open_session-Opening :
      (id : String) (user : UserObject) (w : World p.Db p.Redis) (s : Sessions)
      → Covers p laws w.redis s
      → Opening id s (open_session p jwt id user w)
  unfolding open_session
  open_session-Opening id user w s covers = elim (result_cases jwt.config) [
    | inr (f, c) ↦ refusal id s (open_session p jwt id user w) f w covers (ground (arith, c))
    | inl (config, c) ↦
        elim (result_cases (access_payload user.id user.organization_id user.role)) [
          | inr (f, a) ↦
              refusal id s (open_session p jwt id user w) f w covers (ground (arith, c, a))
          | inl (payload, a) ↦
              elim (result_cases
                (jwt.service.sign jwt.now payload config.access_secret config.access_ttl_sec)) [
                  | inr (f, t) ↦
                      refusal id s (open_session p jwt id user w) f w covers
                        (ground (arith, c, a, t))
                  | inl (access_token, t) ↦
                      elim (result_cases (
                        jwt.service.sign_refresh jwt.now (record { sub = payload.sub; tid = id })
                          config.refresh_secret config.refresh_ttl_sec)) [
                            | inr (f, r) ↦
                                refusal id s (open_session p jwt id user w) f w covers
                                  (ground (arith, c, a, t, r))
                            | inl (refresh_token, r) ↦
                                let key = refresh_session_key payload.sub id in
                                let at : (open_session p jwt id user w).1.redis
                                    ≡ (client.set_ex key "1" config.refresh_ttl_sec w.redis).1 =
                                  elim (saved_cases
                                    (client.set_ex key "1" config.refresh_ttl_sec w.redis)) [
                                      | inl (u, redis', x) ↦ ground (arith, c, a, t, r, x)
                                      | inr (f, redis', x) ↦ ground (arith, c, a, t, r, x)
                                    ] in
                                inl (
                                  payload.sub,
                                  rw at (
                                      set_ex-Covers p laws key "1" config.refresh_ttl_sec w.redis s
                                        covers),
                                )
                          ]
                ]
        ]
  ]

  pub login-Opening :
      (compare_password : String → String → Result Bool) (id : String) (dto : LoginDto)
      (w : World p.Db p.Redis) (s : Sessions)
      → Covers p laws w.redis s
      → Opening id s (login p jwt compare_password id dto w)
  unfolding login
  login-Opening compare_password id dto w s covers =
      elim (found_cases (users.find_one (live_email dto.email) w.db)) [
        | inr (inl e) ↦
            refusal id s (login p jwt compare_password id dto w)
              (unauthorized "Invalid credentials") w covers (ground (arith, e))
        | inr (inr (f, e)) ↦
            refusal id s (login p jwt compare_password id dto w) f w covers (ground (arith, e))
        | inl (u, e) ↦ elim (result_cases (compare_password dto.password u.password)) [
          | inr (f, c) ↦
              refusal id s (login p jwt compare_password id dto w) f w covers (ground (arith, e, c))
          | inl (false, c) ↦
              refusal id s (login p jwt compare_password id dto w)
                (unauthorized "Invalid credentials") w covers (ground (arith, e, c))
          | inl (true, c) ↦
              let at : login p jwt compare_password id dto w
                  ≡ open_session p jwt id (load_user u) w =
                ground (arith, e, c) in
              rw at (open_session-Opening id (load_user u) w s covers)
        ]
      ]

  create_account-redis :
      (dto : RegisterDto) (hashed : String) (w : World p.Db p.Redis)
      → (create_account p dto hashed w).1.redis ≡ w.redis
  unfolding create_account
  create_account-redis dto hashed w = ground arith

  transaction-redis :
      (commit : p.Db → Result (Unit {0})) (dto : RegisterDto) (hashed : String)
      (w : World p.Db p.Redis)
      → (transaction p commit (create_account p dto hashed) w).1.redis ≡ w.redis
  transaction-redis commit dto hashed w = ground (arith, create_account-redis dto hashed w)

  pub register-Opening :
      (commit : p.Db → Result (Unit {0})) (id : String) (dto : RegisterDto) (w : World p.Db p.Redis)
      (s : Sessions)
      → Covers p laws w.redis s
      → Opening id s (register p jwt commit id dto w)
  unfolding register
  register-Opening commit id dto w s covers =
      let ended = register p jwt commit id dto w in
      elim (found_cases (users.find_one (live_email dto.email) w.db)) [
        | inl (u, e) ↦
            refusal id s ended (conflict "Email already exists") w covers (ground (arith, e))
        | inr (inr (f, e)) ↦ refusal id s ended f w covers (ground (arith, e))
        | inr (inl e) ↦
            elim (found_cases (organizations.find_one (live_name dto.organization_name) w.db)) [
              | inl (o, g) ↦
                  refusal id s ended (conflict "Organization already exists") w covers
                    (ground (arith, e, g))
              | inr (inr (f, g)) ↦ refusal id s ended f w covers (ground (arith, e, g))
              | inr (inl g) ↦ elim (result_cases (p.hash_password dto.password)) [
                | inr (f, h) ↦ refusal id s ended f w covers (ground (arith, e, g, h))
                | inl (hashed, h) ↦
                    elim (saved_cases (transaction p commit (create_account p dto hashed) w)) [
                      | inr (f, after, x) ↦
                          refusal id s ended f after
                            (rw
                              (sym (ap (λ y. y.1.redis) x) ∙ transaction-redis commit dto hashed w)
                              covers)
                            (ground (arith, e, g, h, x))
                      | inl (user, after, x) ↦
                          let at : ended ≡ open_session p jwt id user after =
                            ground (arith, e, g, h, x) in
                          rw at (
                            open_session-Opening id user after s (
                              rw
                                (sym (ap (λ y. y.1.redis) x)
                                  ∙ transaction-redis commit dto hashed w)
                                covers))
                    ]
              ]
            ]
      ]
