-- ===== src/Tasks/Cache/Invalidation.antt =====
-- A write makes the cached lists of its organization unreachable.
use mathlib.Core.Path.{subst}
use nestjs_team_tasks_api.Prelude.{
  ℕ, suc, String, Option, none, some, ◌≡◌, ◌≢◌, inl, inr, sym, ap, ◌∙◌, arith,
}
use nestjs_team_tasks_api.Js.Number.{pos, parse_int}
use nestjs_team_tasks_api.Js.Number.RoundTrip.{parse_int-show_int}
use nestjs_team_tasks_api.Js.Text.{NoColon}
use nestjs_team_tasks_api.Entities.{AccessTokenPayload}
use nestjs_team_tasks_api.Exec.{ok}
use nestjs_team_tasks_api.Exec.Cases.{option_cases}
use nestjs_team_tasks_api.Platform.{Platform, World}
use nestjs_team_tasks_api.Platform.Laws.{RedisLaws}
use nestjs_team_tasks_api.Tasks.Dto.{ListTasksQueryDto}
use nestjs_team_tasks_api.Tasks.Cache.{
  version_of, org_tasks_list_version_key, bump_org_list_cache, build_cache_key,
}
use nestjs_team_tasks_api.Tasks.Cache.Effects.{current_version}
use nestjs_team_tasks_api.Tasks.Cache.Keys.{key-ne}

module _ (p : Platform) (laws : RedisLaws p.client) where
  open p use {client}

  -- INCR adds one to the version that a request reads
  incr_version :
      (k : String) (redis redis' : p.Redis) (raw : Option String) (m n : ℕ)
      → client.get k redis ≡ ok raw
      → version_of p raw ≡ pos m
      → client.incr k redis ≡ (ok n, redis')
      → n ≡ suc m
  incr_version k redis redis' none m n got before e =
      let new = laws.incr_new k redis redis' n e (sym (laws.get_stored k redis none got)) in
      ground (arith, new, before)
  incr_version k redis redis' (some raw) m n got before e =
      let stored = sym (laws.get_stored k redis (some raw) got) in
      elim (option_cases (parse_int raw)) [
        | inl (z, read) ↦
            let same : z ≡ pos m = ground (arith, read, before) in
            laws.incr_old k redis redis' n m raw e stored (read ∙ ap some same)
        | inr bad ↦ absurd (laws.incr_integer k redis redis' n raw e stored bad)
      ]

  -- the version that is read once INCR has written `n`
  version_written :
      (k : String) (redis redis' : p.Redis) (raw : Option String) (n : ℕ)
      → client.incr k redis ≡ (ok n, redis')
      → client.get k redis' ≡ ok raw
      → version_of p raw ≡ pos n
  version_written k redis redis' raw n e got =
      let held = laws.get_stored k redis' raw got ∙ laws.incr_writes k redis redis' n e in
      ground (arith, held, parse_int-show_int (pos n))

  -- If Redis answers and held no negative version, and the organization's id holds no colon, then `bumpOrgListCache` adds one to the version of
  -- the organization's lists, and no list request of the organization after it, whoever sends it and
  -- whatever it asks for, looks at the key of a request just before it.
  pub bump-new_keys :
      (org : String) (w : World p.Db p.Redis) (raw raw' : Option String) (m n : ℕ)
      (redis' : p.Redis) (a b : AccessTokenPayload) (q r : ListTasksQueryDto)
      → client.get (org_tasks_list_version_key org) w.redis ≡ ok raw
      → version_of p raw ≡ pos m
      → client.incr (org_tasks_list_version_key org) w.redis ≡ (ok n, redis')
      → client.get (org_tasks_list_version_key org) redis' ≡ ok raw'
      → NoColon org
      → a.organization_id ≡ org
      → b.organization_id ≡ org
      → (current_version p org (bump_org_list_cache p org w).1 ≡ pos (suc m))
        × (build_cache_key p a.organization_id (current_version p org w) a q
            ≢ build_cache_key p b.organization_id
                (current_version p org (bump_org_list_cache p org w).1)
                b
                r)
  unfolding bump_org_list_cache current_version
  bump-new_keys org w raw raw' m n redis' a b q r got before incr again no_colon ao bo =
      let key = org_tasks_list_version_key org in
      let counted = incr_version key w.redis redis' raw m n got before incr in
      let old : current_version p org w ≡ pos m = ground (arith, got, before) in
      let now : current_version p org (bump_org_list_cache p org w).1 ≡ pos (suc m) =
        ground
          (arith, incr, again, version_written key w.redis redis' raw' n incr again, counted) in
      let apart : current_version p org w ≢ current_version p org (bump_org_list_cache p org w).1 =
        λ h. ground (arith, sym old ∙ h ∙ now) in
      (
        now,
        key-ne p a b _ _ q r (subst NoColon (sym ao) no_colon) (subst NoColon (sym bo) no_colon)
            apart,
      )
