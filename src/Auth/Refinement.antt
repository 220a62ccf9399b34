-- ===== src/Auth/Refinement.antt =====
-- The service's operations on sessions, with the stores, take only the steps of the specification.
use mathlib.Core.List.{Memᴰ}
use nestjs_team_tasks_api.Prelude.{
  ℕ, String, Bool, true, List, [], ◌∷◌, ◌≡◌, refl, sym, ap, ◌∙◌, inl, inr, arith,
}
use nestjs_team_tasks_api.Exec.{Result, ok, throw, service_unavailable}
use nestjs_team_tasks_api.Exec.Cases.{result_cases, saved_cases, option_cases}
use nestjs_team_tasks_api.Platform.{Platform, World}
use nestjs_team_tasks_api.Platform.Laws.{RedisLaws}
use nestjs_team_tasks_api.Auth.Service.{
  Jwt, at, refresh_session_key, verify_refresh_or_null, refresh_session, refresh, logout,
}
use nestjs_team_tasks_api.Auth.Accounts.{Session, login, register}
use nestjs_team_tasks_api.Auth.Laws.{refresh_session_closed}
use nestjs_team_tasks_api.Auth.Sessions.{
  Call, registers, logs_in, refreshes, logs_out, Reply, session, access, cleared, reply, Sessions,
  without, Names, Opens, by_register, by_login, Step, opened, half_opened, refused, answered,
  closed, unnamed, Steps, stop, step, execute, run,
}
use nestjs_team_tasks_api.Auth.Covers.{Covers, del-Covers, shrink-Covers}
use nestjs_team_tasks_api.Auth.Covers.Openings.{Opening, login-Opening, register-Opening}

module _ (p : Platform) (laws : RedisLaws p.client) (jwt : Jwt) where
  open p use {users, client}

  -- the specification takes a step with the reply, and its list still covers the sessions in Redis
  abbrev Simulated : Call → Reply × World p.Db p.Redis → Sessions → Type 0
  Simulated c replied s =
      (s' : Sessions) × Step jwt c replied.0 s s' × Covers p laws replied.1.redis s'

  Opening-Simulated :
      (c : Call) (id : String) (s : Sessions) (ended : Result Session × World p.Db p.Redis)
      → Opens c id
      → Opening p laws jwt id s ended
      → Simulated c (reply session ended) s
  Opening-Simulated c id s (ok a, w) opens (inl (user, covers)) =
      (refresh_session_key user id ∷ s, opened user opens, covers)
  Opening-Simulated c id s (throw e, w) opens (inl (user, covers)) =
      (refresh_session_key user id ∷ s, half_opened user opens, covers)
  Opening-Simulated c id s (ok a, w) opens (inr (f, e, covers)) = absurd (ground (arith, e))
  Opening-Simulated c id s (throw e, w) opens (inr (f, _, covers)) = (s, refused, covers)

  refresh-reads : (token : String) (w : World p.Db p.Redis) → (refresh p jwt token w).1 ≡ w
  unfolding refresh refresh_session
  refresh-reads token w = ground arith

  -- an access token is given for a session that Redis holds
  refresh-Names :
      (token answer : String) (w : World p.Db p.Redis) (s : Sessions)
      → Covers p laws w.redis s
      → (refresh p jwt token w).0 ≡ ok answer
      → (key : String) × Names jwt token key × Memᴰ key s
  unfolding refresh
  refresh-Names token answer w s covers h = elim (result_cases jwt.config) [
    | inr (f, c) ↦ absurd (ground (arith, h, c))
    | inl (config, c) ↦
        elim (option_cases (verify_refresh_or_null jwt token config.refresh_secret)) [
          | inr v ↦ absurd (ground (arith, h, c, v))
          | inl (payload, v) ↦
              let key = refresh_session_key payload.sub payload.tid in
              elim (option_cases (client.stored w.redis key)) [
                | inl (held, x) ↦ (
                  key,
                  record {
                    config = config;
                    payload = payload;
                    configured = c;
                    verified = v;
                    named = refl;
                  },
                  covers.covered payload.sub payload.tid held x,
                )
                | inr x ↦ absurd (
                    refresh_session_closed p laws jwt config payload w answer x
                      (ground (arith, h, c, v)))
              ]
        ]
  ]

  refresh-Simulated :
      (token : String) (w : World p.Db p.Redis) (s : Sessions)
      → Covers p laws w.redis s
      → Simulated (refreshes token) (reply access (refresh p jwt token w)) s
  refresh-Simulated token w s covers =
      let reads = refresh-reads token w in
      elim (saved_cases (refresh p jwt token w)) [
        | inr (f, w', e) ↦ rw e (s, refused, rw (sym (ap (λ x. x.1) e) ∙ reads) covers)
        | inl (answer, w', e) ↦
            let (key, names, m) = refresh-Names token answer w s covers (ap (λ x. x.0) e) in
            rw e (s, answered names m, rw (sym (ap (λ x. x.1) e) ∙ reads) covers)
      ]

  logout-Simulated :
      (token : String) (w : World p.Db p.Redis) (s : Sessions)
      → Covers p laws w.redis s
      → Simulated (logs_out token) (reply cleared (logout p jwt token w)) s
  unfolding logout
  logout-Simulated token w s covers = elim (result_cases jwt.config) [
    | inr (f, c) ↦
        let ends : logout p jwt token w ≡ (throw f, w) = ground (arith, c) in
        rw ends (s, refused, covers)
    | inl (config, c) ↦
        elim (option_cases (verify_refresh_or_null jwt token config.refresh_secret)) [
          | inr v ↦
              let ends : logout p jwt token w ≡ (ok true, w) = ground (arith, c, v) in
              rw ends (s, unnamed config c v, covers)
          | inl (payload, v) ↦
              let key = refresh_session_key payload.sub payload.tid in
              let names : Names jwt token key = record {
                config = config;
                payload = payload;
                configured = c;
                verified = v;
                named = refl;
              } in
              elim (saved_cases (client.del key w.redis)) [
                | inl (n, redis', d) ↦
                    let ends : logout p jwt token w ≡ (ok true, record w { redis = redis' }) =
                      ground (arith, c, v, d) in
                    rw ends (
                      without key s,
                      closed names,
                      del-Covers p laws key n w.redis redis' s d covers,
                    )
                | inr (f, redis', d) ↦
                    let ends : logout p jwt token w ≡ (
                      throw (service_unavailable "Redis unavailable"),
                      record w { redis = redis' },
                    ) =
                      ground (arith, c, v, d) in
                    rw ends (s, refused, shrink-Covers p laws key w.redis redis' s d covers)
              ]
        ]
  ]

  module _ (compare_password : String → String → Result Bool)
      (commit : p.Db → Result (Unit {0})) where
    execute-Simulated :
        (c : Call) (w : World p.Db p.Redis) (s : Sessions)
        → Covers p laws w.redis s
        → Simulated c (execute p jwt compare_password commit c w) s
    unfolding execute
    execute-Simulated (registers id dto) w s covers =
        Opening-Simulated (registers id dto) id s (register p jwt commit id dto w) by_register
          (register-Opening p laws jwt commit id dto w s covers)
    execute-Simulated (logs_in id dto) w s covers =
        Opening-Simulated (logs_in id dto) id s (login p jwt compare_password id dto w) by_login
          (login-Opening p laws jwt compare_password id dto w s covers)
    execute-Simulated (refreshes token) w s covers = refresh-Simulated token w s covers
    execute-Simulated (logs_out token) w s covers = logout-Simulated token w s covers

module _ (p : Platform) (laws : RedisLaws p.client) (jwt : Jwt)
    (compare_password : String → String → Result Bool) (commit : p.Db → Result (Unit {0})) where
  -- The operations on sessions implement the list of sessions. From a Redis whose sessions are in the
  -- list, whatever calls of `register`, `login`, `refresh` and `logout` follow each other, at whatever times
  -- and however each ends: every call with its reply is a step of the specification, and the list at the
  -- end has every session that Redis holds. In these steps, only `register` and `login` add a session, each
  -- at most one, with the id of its own token; `refresh` gives an access token only for a token that then
  -- verifies and whose session is in the list; and a `logout` that returns takes the session that its token
  -- names, if any, out of the list.
  pub run-Steps :
      (calls : List (ℕ × Call)) (w : World p.Db p.Redis) (s : Sessions)
      → Covers p laws w.redis s
      → (s' : Sessions) × Steps jwt (run p jwt compare_password commit calls w).0 s s'
        × Covers p laws (run p jwt compare_password commit calls w).1.redis s'
  unfolding run
  run-Steps [] w s covers = (s, stop, covers)
  run-Steps ((now, c) ∷ calls) w s covers =
      let (next, taken, still) =
        execute-Simulated p laws (at now jwt) compare_password commit c w s covers in
      let (last, rest, at_end) =
        run-Steps calls (execute p (at now jwt) compare_password commit c w).1 next still in
      (last, step taken rest, at_end)
