-- ===== src/Projects/Reach.antt =====
-- Which projects a client of the projects controller can change, over any sequence of requests.
use nestjs_team_tasks_api.Prelude.{
  String, false, some, List, [], ◌∷◌, ◌≡◌, ◌≢◌, ◌⊎◌, inl, inr, refl, ◌∙◌, arith, eq_iff, keep, All,
  ◌==◌, string_eq,
}
use nestjs_team_tasks_api.Js.{Field, value}
use nestjs_team_tasks_api.Entities.{role_eq, Project, ProjectObject, AccessTokenPayload}
use nestjs_team_tasks_api.Exec.{ok}
use nestjs_team_tasks_api.Exec.Cases.{found_cases, result_cases}
use nestjs_team_tasks_api.Platform.{Platform, World, run, project_shape}
use nestjs_team_tasks_api.Platform.Laws.{ProjectLaws}
use nestjs_team_tasks_api.Platform.Frame.{keep-insert, keep-save, keep-soft_delete}
use nestjs_team_tasks_api.Queries.{live_in_org, in_org}
use nestjs_team_tasks_api.Queries.Laws.{project-live_in_org, recover-as_conflict}
use nestjs_team_tasks_api.Projects.Service.{
  CreateProjectDto, UpdateProjectDto, project_data, merge, namesake, live_name, save_named, create,
  list, get_by_id, get_one, check_name, update, soft_delete,
}
use nestjs_team_tasks_api.Projects.Controller.{
  Request, create_project, list_projects, get_project, update_project, delete_project, run_handler,
  handle, serve,
}

abbrev pub of_org : String → List Project → List Project
of_org org rows = keep (λ r. r.organization_id == org) rows

module _ (p : Platform) where
  open p use {projects}

  pub db-save_named :
      (o : ProjectObject) (w : World p.Db p.Redis)
      → (save_named p o w).1.db ≡ (projects.save o w.db).1
  unfolding save_named
  db-save_named o w =
      ground (arith, recover-as_conflict "Project already exists" (run (projects.save o) w))

  -- `create` writes nothing, or saves the project, whose name no live project of the organization has
  pub db-create :
      (dto : CreateProjectDto) (actor : AccessTokenPayload) (w : World p.Db p.Redis)
      → ((create p dto actor w).1.db ≡ w.db)
        ⊎ ((projects.exists (live_name dto.name actor.organization_id) w.db ≡ ok false)
            × ((create p dto actor w).1.db
                ≡ (projects.save
                    (projects.create (project_data dto actor.organization_id))
                    w.db).1))
  unfolding create
  db-create dto actor w =
      ground (arith, db-save_named (projects.create (project_data dto actor.organization_id)) w)

  -- the name of an update is the project's own, or none, or no other live project has it
  abbrev pub NameIsFree : Field String → Project → String → p.Db → Type 0
  NameIsFree (value name) project org db =
      (name ≡ project.name) ⊎ (projects.exists (namesake project.id name org) db ≡ ok false)
  NameIsFree _ project org db = Unit

  check_name_lem :
      (name : Field String) (project : Project) (org : String) (w : World p.Db p.Redis)
      → ((check_name p name project org w).1 ≡ w)
        × ((check_name p name project org w).0 ≡ ok tt → NameIsFree name project org w.db)
  check_name_lem (value name) project org w = ground (arith, eq_iff name project.name)
  check_name_lem _ project org w = ground arith

  update_of :
      (t : Project) (id : String) (dto : UpdateProjectDto) (actor : AccessTokenPayload)
      (w : World p.Db p.Redis)
      → projects.find_one (live_in_org id actor.organization_id) w.db ≡ ok (some t)
      → ((update p id dto actor w).1.db ≡ w.db)
        ⊎ (((check_name p dto.name t actor.organization_id w).0 ≡ ok tt)
            × ((update p id dto actor w).1.db ≡ (projects.save (merge t dto) w.db).1))
  unfolding update get_by_id
  update_of t id dto actor w e =
      let same = (check_name_lem dto.name t actor.organization_id w).0 in
      let end = db-save_named (merge t dto) w in
      elim (result_cases (check_name p dto.name t actor.organization_id w).0) [
        | inl (tt, c) ↦ inr (c, ground (arith, e, c, same, end))
        | inr (f, c) ↦ inl (ground (arith, e, c, same))
      ]

  pub db-update :
      (id : String) (dto : UpdateProjectDto) (actor : AccessTokenPayload) (w : World p.Db p.Redis)
      → ((update p id dto actor w).1.db ≡ w.db)
        ⊎ ((t : Project) × (projects.find_one (live_in_org id actor.organization_id) w.db
              ≡ ok (some t))
            × NameIsFree dto.name t actor.organization_id w.db
            × ((update p id dto actor w).1.db ≡ (projects.save (merge t dto) w.db).1))
  unfolding update get_by_id
  db-update id dto actor w =
      elim (found_cases (projects.find_one (live_in_org id actor.organization_id) w.db)) [
        | inl (t, e) ↦ elim (update_of t id dto actor w e) [
          | inl same ↦ inl same
          | inr (c, h) ↦ inr (t, e, (check_name_lem dto.name t actor.organization_id w).1 c, h)
        ]
        | inr (inl e) ↦ inl (ground (arith, e))
        | inr (inr (f, e)) ↦ inl (ground (arith, e))
      ]

  pub db-soft_delete :
      (id : String) (actor : AccessTokenPayload) (w : World p.Db p.Redis)
      → ((soft_delete p id actor w).1.db ≡ w.db)
        ⊎ ((soft_delete p id actor w).1.db
            ≡ (projects.soft_delete (in_org id actor.organization_id) w.db).1)
  unfolding soft_delete
  db-soft_delete id actor w =
      elim (found_cases (projects.find_one (live_in_org id actor.organization_id) w.db)) [
        | inl (t, e) ↦ inr (ground (arith, e))
        | inr (inl e) ↦ inl (ground (arith, e))
        | inr (inr (f, e)) ↦ inl (ground (arith, e))
      ]

module _ (p : Platform) (laws : ProjectLaws p.projects) (org : String) (actor : AccessTokenPayload)
    (other : actor.organization_id ≢ org) where
  open p use {projects}

  of_org-create :
      (dto : CreateProjectDto) (w : World p.Db p.Redis)
      → of_org org (projects.rows (create p dto actor w).1.db) ≡ of_org org (projects.rows w.db)
  of_org-create dto w = elim (db-create p dto actor w) [
    | inl same ↦ rw same
    | inr (_, e) ↦ rw e (
        keep-insert projects project_shape laws _ (project_data dto actor.organization_id) w.db refl
          λ t ins. ground (arith, ins.organization_id, other, eq_iff t.organization_id org))
  ]

  of_org-update :
      (id : String) (dto : UpdateProjectDto) (w : World p.Db p.Redis)
      → of_org org (projects.rows (update p id dto actor w).1.db) ≡ of_org org (projects.rows w.db)
  of_org-update id dto w = elim (db-update p id dto actor w) [
    | inl same ↦ rw same
    | inr (t, found, _, e) ↦
        let (stored, m) = laws.find_one_some _ w.db t found in
        let (_, mine, _) = project-live_in_org id actor.organization_id t m in
        rw e (
          keep-save projects project_shape laws _ (merge t dto) t w.db stored refl
            λ now. ground (arith, mine, other, eq_iff t.organization_id org))
  ]

  of_org-soft_delete :
      (id : String) (w : World p.Db p.Redis)
      → of_org org (projects.rows (soft_delete p id actor w).1.db) ≡ of_org org (projects.rows w.db)
  of_org-soft_delete id w = elim (db-soft_delete p id actor w) [
    | inl same ↦ rw same
    | inr e ↦ rw e (
        keep-soft_delete projects project_shape laws _ (in_org id actor.organization_id) w.db
          λ now s m matched. ground (
            arith,
            matched,
            other,
            eq_iff s.organization_id org,
            eq_iff s.organization_id actor.organization_id,
          ))
  ]

  of_org-handler :
      (request : Request) (w : World p.Db p.Redis)
      → of_org org (projects.rows (run_handler p request actor w).1.db)
        ≡ of_org org (projects.rows w.db)
  unfolding run_handler
  of_org-handler (create_project dto) w = ground (arith, of_org-create dto w)
  of_org-handler (list_projects dto) w = unfold list in (ground arith)
  of_org-handler (get_project id) w = unfold get_one in (ground arith)
  of_org-handler (update_project id dto) w = ground (arith, of_org-update id dto w)
  of_org-handler (delete_project id) w = ground (arith, of_org-soft_delete id w)

  of_org-handle :
      (request : Request) (w : World p.Db p.Redis)
      → of_org org (projects.rows (handle p request actor w).1.db) ≡ of_org org (projects.rows w.db)
  unfolding handle
  of_org-handle request w = ground (arith, of_org-handler request w)

-- Whatever requests the members of other organizations send to the projects controller, in any order
-- and whether they succeed or fail, the projects of `org` stay what they are, the deleted ones too.
pub projects_of_org-serve :
    (p : Platform) (laws : ProjectLaws p.projects) (org : String)
    (requests : List (AccessTokenPayload × Request)) (w : World p.Db p.Redis)
    → All (λ r. r.0.organization_id ≢ org) requests
    → of_org org (p.projects.rows (serve p requests w).db) ≡ of_org org (p.projects.rows w.db)
unfolding serve
projects_of_org-serve p laws org [] w h = refl
projects_of_org-serve p laws org ((actor, request) ∷ rest) w (other, h) =
    projects_of_org-serve p laws org rest (handle p request actor w).1 h
    ∙ of_org-handle p laws org actor other request w
