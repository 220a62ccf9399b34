-- ===== src/Tasks/Service/Effects.antt =====
-- What the ends of the writing operations leave in the database.
use nestjs_team_tasks_api.Prelude.{String, ◌≡◌, refl, inl, inr, Option, none, some, arith}
use nestjs_team_tasks_api.Entities.{TaskObject, AccessTokenPayload}
use nestjs_team_tasks_api.Exec.Cases.{result_cases}
use nestjs_team_tasks_api.Platform.{Platform, World}
use nestjs_team_tasks_api.Queries.{in_org}
use nestjs_team_tasks_api.Tasks.Cache.Effects.{
  bump_lem, db-set, current_version, cached_at, get_lem, get_org_list_version_lem,
}
use nestjs_team_tasks_api.Tasks.Cache.{build_cache_key}
use nestjs_team_tasks_api.Tasks.Dto.{ListTasksQueryDto, ListTasksResponseDto}
use nestjs_team_tasks_api.Tasks.Objects.{list_options, list_response}
use nestjs_team_tasks_api.Tasks.Service.{
  save_and_bump, delete_and_bump, list, list_from_db, get_one, answer,
}

module _ (p : Platform) where
  open p use {tasks}

  pub db-save_and_bump :
      (o : TaskObject) (org : String) (w : World p.Db p.Redis)
      → (save_and_bump p o org w).1.db ≡ (tasks.save o w.db).1
  unfolding save_and_bump
  db-save_and_bump o org w =
      ground (arith, bump_lem p (record w { db = (tasks.save o w.db).1 }) org)

  pub db-delete_and_bump :
      (id org : String) (w : World p.Db p.Redis)
      → (delete_and_bump p id org w).1.db ≡ (tasks.soft_delete (in_org id org) w.db).1
  unfolding delete_and_bump
  db-delete_and_bump id org w =
      ground (arith, bump_lem p (record w { db = (tasks.soft_delete (in_org id org) w.db).1 }) org)

  db-list_from_db :
      (key : String) (dto : ListTasksQueryDto) (actor : AccessTokenPayload) (w : World p.Db p.Redis)
      → (list_from_db p key dto actor w).1.db ≡ w.db
  unfolding list_from_db
  db-list_from_db key dto actor w =
      elim (result_cases (tasks.find_and_count (list_options actor dto) w.db)) [
        | inl (found, e) ↦ ground (arith, e, db-set p w key (list_response dto found))
        | inr (f, e) ↦ ground (arith, e)
      ]

  -- the key at which `list` looks
  abbrev pub key_of : ListTasksQueryDto → AccessTokenPayload → World p.Db p.Redis → String
  key_of dto actor w =
      build_cache_key p actor.organization_id (current_version p actor.organization_id w) actor dto

  pub list_lem :
      (dto : ListTasksQueryDto) (actor : AccessTokenPayload) (w : World p.Db p.Redis)
      → list p dto actor w
        ≡ answer p
            (cached_at p (key_of dto actor w) w)
            (list_from_db p (key_of dto actor w) dto actor)
            w
  unfolding list
  list_lem dto actor w =
      rw (get_org_list_version_lem p w actor.organization_id, get_lem p w (key_of dto actor w))

  answer-cases :
      (o : Option ListTasksResponseDto) (key : String) (dto : ListTasksQueryDto)
      (actor : AccessTokenPayload) (w : World p.Db p.Redis)
      → (answer p o (list_from_db p key dto actor) w).1.db ≡ w.db
  answer-cases none key dto actor w = db-list_from_db key dto actor w
  answer-cases (some v) key dto actor w = refl

  pub db-list :
      (dto : ListTasksQueryDto) (actor : AccessTokenPayload) (w : World p.Db p.Redis)
      → (list p dto actor w).1.db ≡ w.db
  db-list dto actor w =
      rw (list_lem dto actor w)
        (answer-cases (cached_at p (key_of dto actor w) w) (key_of dto actor w) dto actor w)

  pub db-get_one :
      (id : String) (actor : AccessTokenPayload) (w : World p.Db p.Redis)
      → (get_one p id actor w).1 ≡ w
  unfolding get_one
  db-get_one id actor w = ground arith
