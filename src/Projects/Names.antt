-- ===== src/Projects/Names.antt =====
-- The names of the live projects of an organization are distinct, and the projects service keeps them so.
use mathlib.Core.List.{Memᴰ}
use mathlib.Core.Path.{subst}
use nestjs_team_tasks_api.Prelude.{
  String, false, none, List, [], ◌∷◌, ◌≡◌, inl, inr, refl, sym, ◌∙◌, arith, eq_iff, string_eq,
}
use nestjs_team_tasks_api.Js.{Field, absent, undefined, null, value, spread}
use nestjs_team_tasks_api.Entities.{Project, AccessTokenPayload}
use nestjs_team_tasks_api.Exec.{ok}
use nestjs_team_tasks_api.Exec.Cases.{saved_cases}
use nestjs_team_tasks_api.Platform.{Platform, World, column}
use nestjs_team_tasks_api.Platform.Laws.{ProjectLaws}
use nestjs_team_tasks_api.Queries.{in_org}
use nestjs_team_tasks_api.Queries.Laws.{project-live_in_org}
use nestjs_team_tasks_api.Projects.Service.{
  CreateProjectDto, UpdateProjectDto, project_data, merge, live_name, update,
}
use nestjs_team_tasks_api.Projects.Reach.{db-create, db-update, db-soft_delete, NameIsFree}
use nestjs_team_tasks_api.Projects.Controller.{
  Request, create_project, list_projects, get_project, update_project, delete_project, run_handler,
  world-run_handler, world-handle, handle, serve,
}
use nestjs_team_tasks_api.Projects.Unique.{UniqueNames, UniqueNames-insert, UniqueNames-map}

module _ (p : Platform) (laws : ProjectLaws p.projects) (actor : AccessTokenPayload) where
  open p use {projects}

  insert-UniqueNames :
      (dto : CreateProjectDto) (db : p.Db)
      → projects.exists (live_name dto.name actor.organization_id) db ≡ ok false
      → UniqueNames (projects.rows db)
      → UniqueNames (
          projects.rows
            (projects.save (projects.create (project_data dto actor.organization_id)) db).1)
  insert-UniqueNames dto db free h =
      elim (saved_cases
        (projects.save (projects.create (project_data dto actor.organization_id)) db)) [
          | inl (o', db', e) ↦
              let (t, ins, _, rows, _) = laws.save_new _ o' db db' refl e in
              rw (e, rows)
                (UniqueNames-insert t (projects.rows db)
                  (λ s m.
                    ground (arith, laws.exists_false _ db s free m, ins.name, ins.organization_id))
                  h)
          | inr (f, db', e) ↦ rw (e, laws.save_throws _ db db' f e) h
        ]

  -- no other live project of the organization has the name that an update gives
  renamed-distinct :
      (name : Field String) (t s : Project) (db : p.Db)
      → UniqueNames (projects.rows db)
      → Memᴰ t (projects.rows db)
      → Memᴰ s (projects.rows db)
      → t.deleted_at ≡ none
      → s.deleted_at ≡ none
      → NameIsFree p name t t.organization_id db
      → t.organization_id ≡ s.organization_id
      → column (spread (value t.name) name) t.name ≡ s.name
      → t.id ≡ s.id
  unfolding UniqueNames
  renamed-distinct absent t s db h mt ms lt ls free o n = h t s mt ms lt ls o n
  renamed-distinct undefined t s db h mt ms lt ls free o n = h t s mt ms lt ls o n
  renamed-distinct null t s db h mt ms lt ls free o n = h t s mt ms lt ls o n
  renamed-distinct (value name) t s db h mt ms lt ls (inl same) o n =
      h t s mt ms lt ls o (sym same ∙ n)
  renamed-distinct (value name) t s db h mt ms lt ls (inr free) o n = ground (
    arith,
    laws.exists_false _ db s free ms,
    ls,
    o,
    n,
    eq_iff s.id t.id,
    eq_iff s.name name,
    eq_iff s.organization_id t.organization_id,
  )

  save-UniqueNames :
      (t : Project) (dto : UpdateProjectDto) (db : p.Db)
      → UniqueNames (projects.rows db)
      → Memᴰ t (projects.rows db)
      → t.deleted_at ≡ none
      → NameIsFree p dto.name t t.organization_id db
      → UniqueNames (projects.rows (projects.save (merge t dto) db).1)
  unfolding UniqueNames
  save-UniqueNames t dto db h mt lt free = elim (saved_cases (projects.save (merge t dto) db)) [
    | inl (o', db', e) ↦
        let (now, _, rows) = laws.save_old (merge t dto) o' db db' t mt refl e in
        rw (e, rows)
          (UniqueNames-map _ (projects.rows db)
            (λ s m l. ground (arith, eq_iff s.id t.id, laws.primary_key db s t m mt, lt))
            (λ s r ms mr ls lr o n. ground (
              arith,
              h s r ms mr ls lr o,
              renamed-distinct dto.name t r db h mt mr lt lr free,
              renamed-distinct dto.name t s db h mt ms lt ls free,
              eq_iff s.id t.id,
              eq_iff r.id t.id,
              laws.primary_key db s t ms mt,
              laws.primary_key db r t mr mt,
            )))
    | inr (f, db', e) ↦ rw (e, laws.save_throws _ db db' f e) h
  ]

  delete-UniqueNames :
      (id : String) (db : p.Db)
      → UniqueNames (projects.rows db)
      → UniqueNames (projects.rows (projects.soft_delete (in_org id actor.organization_id) db).1)
  unfolding UniqueNames
  delete-UniqueNames id db h =
      elim (saved_cases (projects.soft_delete (in_org id actor.organization_id) db)) [
        | inl (tt, db', e) ↦
            let (now, rows) = laws.soft_delete_ok (in_org id actor.organization_id) db db' e in
            rw (e, rows)
              (UniqueNames-map _ (projects.rows db) (λ s m l. ground arith)
                (λ s r ms mr ls lr o n. h s r ms mr ls lr o (ground arith)))
        | inr (f, db', e) ↦ rw (e, laws.soft_delete_throws _ db db' f e) h
      ]

  update-UniqueNames :
      (id : String) (dto : UpdateProjectDto) (w : World p.Db p.Redis)
      → UniqueNames (projects.rows w.db)
      → UniqueNames (projects.rows (update p id dto actor w).1.db)
  update-UniqueNames id dto w h = elim (db-update p id dto actor w) [
    | inl same ↦ rw same h
    | inr (t, found, free, e) ↦
        let (stored, m) = laws.find_one_some _ w.db t found in
        let (_, org, live) = project-live_in_org id actor.organization_id t m in
        rw e (
          save-UniqueNames t dto w.db h stored live
            (subst (λ o. NameIsFree p dto.name t o w.db) (sym org) free))
  ]

  handler-UniqueNames :
      (request : Request) (w : World p.Db p.Redis)
      → UniqueNames (projects.rows w.db)
      → UniqueNames (projects.rows (run_handler p request actor w).1.db)
  handler-UniqueNames (create_project dto) w h =
      rw (world-run_handler p (create_project dto) actor w) (elim (db-create p dto actor w) [
        | inl same ↦ rw same h
        | inr (free, e) ↦ rw e (insert-UniqueNames dto w.db free h)
      ])
  handler-UniqueNames (list_projects dto) w h =
      rw (world-run_handler p (list_projects dto) actor w) h
  handler-UniqueNames (get_project id) w h = rw (world-run_handler p (get_project id) actor w) h
  handler-UniqueNames (update_project id dto) w h =
      rw (world-run_handler p (update_project id dto) actor w) (update-UniqueNames id dto w h)
  handler-UniqueNames (delete_project id) w h =
      rw (world-run_handler p (delete_project id) actor w) (elim (db-soft_delete p id actor w) [
        | inl same ↦ rw same h
        | inr e ↦ rw e (delete-UniqueNames id w.db h)
      ])

  handle-UniqueNames :
      (request : Request) (w : World p.Db p.Redis)
      → UniqueNames (projects.rows w.db)
      → UniqueNames (projects.rows (handle p request actor w).1.db)
  handle-UniqueNames request w h = elim (world-handle p request actor w) [
    | inl same ↦ rw same h
    | inr e ↦ rw e (handler-UniqueNames request w h)
  ]

-- If the names of the live projects of each organization are distinct, then they are distinct after
-- any requests to the projects controller, one after the other, without any help of the database's
-- unique index.
pub serve-UniqueNames :
    (p : Platform) (laws : ProjectLaws p.projects) (requests : List (AccessTokenPayload × Request))
    (w : World p.Db p.Redis)
    → UniqueNames (p.projects.rows w.db)
    → UniqueNames (p.projects.rows (serve p requests w).db)
unfolding serve
serve-UniqueNames p laws [] w h = h
serve-UniqueNames p laws ((actor, request) ∷ rest) w h =
    serve-UniqueNames p laws rest (handle p request actor w).1
      (handle-UniqueNames p laws actor request w h)
