-- ===== src/Auth/Covers.antt =====
-- Which sessions Redis holds, and what a write of one key does to them.
pub mod Openings
use mathlib.Core.List.{Memᴰ}
use nestjs_team_tasks_api.Prelude.{
  ℕ, String, Bool, true, false, some, none, List, [], ◌∷◌, ◌≡◌, refl, sym, ap, ◌∙◌, ◌⊎◌, inl, inr,
  arith, eq_iff, Bool-cases, ◌==◌, string_eq, not,
}
use nestjs_team_tasks_api.Js.{Field}
use nestjs_team_tasks_api.Entities.{UserObject, RefreshTokenPayload, load_user}
use nestjs_team_tasks_api.Exec.{Failure, Result, ok, throw, unauthorized, conflict}
use nestjs_team_tasks_api.Exec.Cases.{found_cases, result_cases, saved_cases, option_cases}
use nestjs_team_tasks_api.Platform.{Platform, World}
use nestjs_team_tasks_api.Platform.Laws.{RedisLaws}
use nestjs_team_tasks_api.Organizations.Service.{live_id}
use nestjs_team_tasks_api.Users.Service.{live_email}
use nestjs_team_tasks_api.Auth.Service.{
  Jwt, JwtConfig, refresh_session_key, verify_refresh_or_null, refresh_session, refresh, logout,
}
use nestjs_team_tasks_api.Auth.Accounts.{
  LoginDto, RegisterDto, Session, access_payload, live_name, create_account, transaction,
  open_session, login, register,
}
use nestjs_team_tasks_api.Auth.Sessions.{Sessions, without}

module _ (p : Platform) (laws : RedisLaws p.client) where
  open p use {users, organizations, client}

  -- every session that Redis holds is in the list
  pub record Covers (redis : p.Redis) (s : Sessions) : Type 0 where
    pub covered :
        (user id held : String)
        → client.stored redis (refresh_session_key user id) ≡ some held
        → Memᴰ (refresh_session_key user id) s

  pub set_ex-Covers :
      (key v : String) (ttl : ℕ) (redis : p.Redis) (s : Sessions)
      → Covers redis s
      → Covers (client.set_ex key v ttl redis).1 (key ∷ s)
  set_ex-Covers key v ttl redis s covers = record {
    covered = λ user id held h. elim (laws.set_ex_others key v ttl redis _ held h) [
      | inl same ↦ Memᴰ.head same
      | inr before ↦ Memᴰ.tail (covers.covered user id held before)
    ];
  }

  without-mem :
      (key other : String) (s : Sessions)
      → (other ≡ key → ⊥)
      → Memᴰ other s
      → Memᴰ other (without key s)
  without-mem key other [] apart m = elim m [ ]
  without-mem key other (x ∷ s) apart (Memᴰ.head e) =
      let kept : (x == key) ≡ false = ground (arith, apart, e, eq_iff x key) in
      rw kept (Memᴰ.head e)
  without-mem key other (x ∷ s) apart (Memᴰ.tail m) =
      let rest = without-mem key other s apart m in
      elim (Bool-cases (x == key)) [ inl e ↦ rw e rest | inr e ↦ rw e (Memᴰ.tail rest) ]

  pub del-Covers :
      (key : String) (n : ℕ) (redis redis' : p.Redis) (s : Sessions)
      → client.del key redis ≡ (ok n, redis')
      → Covers redis s
      → Covers redis' (without key s)
  del-Covers key n redis redis' s d covers = record {
    covered = λ user id held h.
        let gone = laws.del_removes key redis redis' n d in
        let before = laws.del_others key redis (refresh_session_key user id) held (rw d h) in
        without-mem key (refresh_session_key user id) s (λ same. ground (arith, h, gone, same))
          (covers.covered user id held before);
  }

  pub shrink-Covers :
      {f : Failure} (key : String) (redis redis' : p.Redis) (s : Sessions)
      → client.del key redis ≡ (throw f, redis')
      → Covers redis s
      → Covers redis' s
  shrink-Covers key redis redis' s d covers = record {
    covered = λ user id held h.
        covers.covered user id held
          (laws.del_others key redis (refresh_session_key user id) held (rw d h));
  }
