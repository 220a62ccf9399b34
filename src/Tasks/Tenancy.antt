-- ===== src/Tasks/Tenancy.antt =====
-- What a client of the tasks controller can change, over any sequence of requests.
use nestjs_team_tasks_api.Prelude.{
  String, List, [], ◌∷◌, ◌≡◌, ◌≢◌, refl, ◌∙◌, sym, ap, arith, eq_iff, keep, keep-keep, All, ◌==◌,
  string_eq,
}
use nestjs_team_tasks_api.Entities.{Task, AccessTokenPayload, employee}
use nestjs_team_tasks_api.Platform.{Platform, World}
use nestjs_team_tasks_api.Platform.Laws.{TaskLaws}
use nestjs_team_tasks_api.Tasks.Service.Effects.{db-list, db-get_one}
use nestjs_team_tasks_api.Tasks.Service.Isolation.{
  others, others-update, others-create, others-soft_delete,
}
use nestjs_team_tasks_api.Tasks.Controller.{
  Request, create_task, list_tasks, get_task, update_task, delete_task, handle, serve,
}

abbrev pub of_org : String → List Task → List Task
of_org org rows = keep (λ t. t.organization_id == org) rows

abbrev pub assigned : String → List Task → List Task
assigned sub rows = keep (λ t. t.assignee_id == sub) rows

abbrev pub IsOtherEmployee : String → AccessTokenPayload → Type 0
IsOtherEmployee sub user = (user.role ≡ employee) × (user.sub ≢ sub)

of_org-others :
    (org : String) (user : AccessTokenPayload) (rows : List Task)
    → user.organization_id ≢ org
    → of_org org (others user rows) ≡ of_org org rows
of_org-others org user rows other = keep-keep _ _ rows λ t h.
    ground (arith, eq_iff t.organization_id org, eq_iff t.organization_id user.organization_id)

assigned-others :
    (sub : String) (user : AccessTokenPayload) (rows : List Task)
    → user.role ≡ employee
    → user.sub ≢ sub
    → assigned sub (others user rows) ≡ assigned sub rows
assigned-others sub user rows role other =
    keep-keep _ _ rows
      λ t h. ground (arith, eq_iff t.assignee_id sub, eq_iff t.assignee_id user.sub)

module _ (p : Platform) (laws : TaskLaws p.tasks) where
  open p use {tasks}

  -- One request leaves the tasks out of its sender's reach unchanged.
  others-handle :
      (request : Request) (user : AccessTokenPayload) (w : World p.Db p.Redis)
      → others user (tasks.rows (handle p request user w).1.db) ≡ others user (tasks.rows w.db)
  unfolding handle
  others-handle (create_task dto) user w = ground (arith, others-create p laws user dto w)
  others-handle (list_tasks dto) user w = ground (arith, db-list p dto user w)
  others-handle (get_task id) user w = ground (arith, db-get_one p id user w)
  others-handle (update_task id dto) user w = ground (arith, others-update p laws user id dto w)
  others-handle (delete_task id) user w = ground (arith, others-soft_delete p laws user id w)

  -- An organization's tasks are out of reach of whoever belongs to another one.
  of_org-handle :
      (org : String) (request : Request) (user : AccessTokenPayload) (w : World p.Db p.Redis)
      → user.organization_id ≢ org
      → of_org org (tasks.rows (handle p request user w).1.db) ≡ of_org org (tasks.rows w.db)
  of_org-handle org request user w other =
      sym (of_org-others org user _ other)
      ∙ ap (of_org org) (others-handle request user w)
      ∙ of_org-others org user _ other

  -- Tenant isolation. Whatever requests the members of other organizations send, in any order and
  -- whether they succeed or fail, the tasks of `org` stay what they are, the deleted ones too.
  pub of_org-serve :
      (org : String) (requests : List (AccessTokenPayload × Request)) (w : World p.Db p.Redis)
      → All (λ r. r.0.organization_id ≢ org) requests
      → of_org org (tasks.rows (serve p requests w).db) ≡ of_org org (tasks.rows w.db)
  unfolding serve
  of_org-serve org [] w h = refl
  of_org-serve org ((user, request) ∷ rest) w (other, h) =
      of_org-serve org rest (handle p request user w).1 h ∙ of_org-handle org request user w other

  assigned-handle :
      (sub : String) (request : Request) (user : AccessTokenPayload) (w : World p.Db p.Redis)
      → IsOtherEmployee sub user
      → assigned sub (tasks.rows (handle p request user w).1.db) ≡ assigned sub (tasks.rows w.db)
  assigned-handle sub request user w (role, other) =
      sym (assigned-others sub user _ role other)
      ∙ ap (assigned sub) (others-handle request user w)
      ∙ assigned-others sub user _ role other

  -- Whatever requests employees other than `sub` send, in any order and whether they succeed or fail,
  -- the tasks assigned to `sub` stay what they are.
  pub assigned-serve :
      (sub : String) (requests : List (AccessTokenPayload × Request)) (w : World p.Db p.Redis)
      → All (λ r. IsOtherEmployee sub r.0) requests
      → assigned sub (tasks.rows (serve p requests w).db) ≡ assigned sub (tasks.rows w.db)
  unfolding serve
  assigned-serve sub [] w h = refl
  assigned-serve sub ((user, request) ∷ rest) w (other, h) =
      assigned-serve sub rest (handle p request user w).1 h
      ∙ assigned-handle sub request user w other
