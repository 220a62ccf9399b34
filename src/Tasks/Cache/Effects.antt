-- ===== src/Tasks/Cache/Effects.antt =====
-- The cache operations never throw for a fault of Redis, and none of them touches the database.
use nestjs_team_tasks_api.Prelude.{String, Option, none, some, ◌≡◌, ◌⊎◌, inl, inr, arith}
use nestjs_team_tasks_api.Js.Number.{ℤ, pos}
use nestjs_team_tasks_api.Exec.{Failure, Result, ok, throw}
use nestjs_team_tasks_api.Exec.Cases.{result_cases}
use nestjs_team_tasks_api.Platform.{Platform, World}
use nestjs_team_tasks_api.Tasks.Dto.{ListTasksResponseDto}
use nestjs_team_tasks_api.Tasks.Cache.{
  get_org_list_version, get, set, bump_org_list_cache, version_of, org_tasks_list_version_key,
}

module _ (p : Platform) where
  open p use {client, parse_list}

  abbrev version_from : Result (Option String) → ℤ
  version_from (ok raw) = version_of p raw
  version_from (throw e) = pos 0

  -- the version that a request reads; 0 if Redis fails
  unfoldable pub current_version : String → World p.Db p.Redis → ℤ
  current_version org w = version_from (client.get (org_tasks_list_version_key org) w.redis)

  abbrev value_from : Result ListTasksResponseDto → Option ListTasksResponseDto
  value_from (ok v) = some v
  value_from (throw e) = none

  abbrev entry_from : Result (Option String) → Option ListTasksResponseDto
  entry_from (ok none) = none
  entry_from (ok (some raw)) = value_from (parse_list raw)
  entry_from (throw e) = none

  -- the response that a request finds at a key; none if Redis fails or the text is malformed
  pub cached_at : String → World p.Db p.Redis → Option ListTasksResponseDto
  cached_at key w = entry_from (client.get key w.redis)

module _ (p : Platform) (w : World p.Db p.Redis) where
  pub bump_lem :
      (org : String)
      → ((bump_org_list_cache p org w).0 ≡ ok tt) × ((bump_org_list_cache p org w).1.db ≡ w.db)
  unfolding bump_org_list_cache
  bump_lem org = ground arith

  pub get_org_list_version_lem :
      (org : String) → get_org_list_version p org w ≡ (ok (current_version p org w), w)
  unfolding get_org_list_version current_version
  get_org_list_version_lem org = ground arith

  pub get_lem : (key : String) → get p key w ≡ (ok (cached_at p key w), w)
  unfolding get cached_at
  get_lem key = ground arith

  pub db-set : (key : String) (v : ListTasksResponseDto) → (set p key v w).1.db ≡ w.db
  unfolding set
  db-set key v = ground arith

  -- `set` fails only if the lifetime is not configured
  pub set_cases :
      (key : String) (v : ListTasksResponseDto)
      → ((set p key v w).0 ≡ ok tt)
        ⊎ ((f : Failure) × (p.tasks_list_cache_ttl_sec ≡ throw f) × ((set p key v w).0 ≡ throw f))
  unfolding set
  set_cases key v = elim (result_cases p.tasks_list_cache_ttl_sec) [
    | inl (n, e) ↦ inl (ground (arith, e))
    | inr (f, e) ↦ inr (f, e, ground (arith, e))
  ]
