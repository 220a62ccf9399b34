-- ===== src/Users/Reach.antt =====
-- Which users a client of the users controller can change, over any sequence of requests.
use mathlib.Core.List.{Memᴰ}
use nestjs_team_tasks_api.Prelude.{
  String, Bool, true, not, ◌&&◌, List, [], ◌∷◌, ◌≡◌, ◌≢◌, inl, inr, refl, sym, ap, ◌∙◌, arith,
  eq_iff, ltb, keep, keep-keep, All, ◌==◌, string_eq,
}
use nestjs_team_tasks_api.Entities.{owner, role_eq, User, AccessTokenPayload}
use nestjs_team_tasks_api.Exec.Cases.{result_cases}
use nestjs_team_tasks_api.Platform.{Platform, World, matches_user, user_shape}
use nestjs_team_tasks_api.Platform.Laws.{UserLaws}
use nestjs_team_tasks_api.Platform.Frame.{keep-insert, keep-soft_delete}
use nestjs_team_tasks_api.Queries.{in_org}
use nestjs_team_tasks_api.Users.Policy.{is_allowed_to_create_user, is_allowed_to_delete_user}
use nestjs_team_tasks_api.Users.Service.{CreateUserDto, user_data, create, list, soft_delete}
use nestjs_team_tasks_api.Users.Controller.{
  Request, create_user, get_users, delete_user, run_handler, handle, serve,
}
use nestjs_team_tasks_api.Users.Laws.{rank, allowed_by_rank, soft_delete_cases}

-- the users that an actor may create and delete
abbrev pub below : AccessTokenPayload → User → Bool
below actor u = u.organization_id == actor.organization_id && ltb (rank u.role) (rank actor.role)

abbrev pub others : AccessTokenPayload → List User → List User
others actor rows = keep (λ u. not (below actor u)) rows

module _ (p : Platform) (laws : UserLaws p.users) (actor : AccessTokenPayload) where
  open p use {users}

  others-save :
      (dto : CreateUserDto) (hash : String) (db : p.Db)
      → is_allowed_to_create_user actor.role dto.role ≡ true
      → others actor
          (users.rows (users.save (users.create (user_data dto hash actor.organization_id)) db).1)
        ≡ others actor (users.rows db)
  others-save dto hash db allowed =
      keep-insert users user_shape laws _ (user_data dto hash actor.organization_id) db refl
        λ u ins. ground (
          arith,
          ins.role,
          ins.organization_id,
          allowed,
          allowed_by_rank actor.role dto.role,
          eq_iff u.organization_id actor.organization_id,
        )

  others-create :
      (dto : CreateUserDto) (w : World p.Db p.Redis)
      → others actor (users.rows (create p dto actor w).1.db) ≡ others actor (users.rows w.db)
  unfolding create
  others-create dto w = elim (result_cases (p.hash_password dto.password)) [
    | inl (hash, e) ↦ ground (arith, e, others-save dto hash w.db)
    | inr (f, e) ↦ ground (arith, e)
  ]

  matches-in_org :
      (id : String) (u : User)
      → matches_user (in_org id actor.organization_id) u ≡ true
      → (u.id ≡ id) × (u.organization_id ≡ actor.organization_id)
  matches-in_org id u h =
      ground (arith, eq_iff u.id id, eq_iff u.organization_id actor.organization_id)

  others-retire :
      (u : User) (id : String) (db : p.Db)
      → Memᴰ u (users.rows db)
      → u.id ≡ id
      → is_allowed_to_delete_user actor.role u.role ≡ true
      → others actor (users.rows (users.soft_delete (in_org id actor.organization_id) db).1)
        ≡ others actor (users.rows db)
  others-retire u id db stored same allowed =
      keep-soft_delete users user_shape laws _ (in_org id actor.organization_id) db
        λ now s m matched.
          let (is_id, org) = matches-in_org id s matched in
          let it = laws.primary_key db s u m stored (is_id ∙ sym same) in
          ground (
            arith,
            allowed,
            allowed_by_rank actor.role u.role,
            org,
            ap (λ v. v.role) it,
            eq_iff s.organization_id actor.organization_id,
          )

  others-soft_delete :
      (id : String) (w : World p.Db p.Redis)
      → others actor (users.rows (soft_delete p id actor w).1.db) ≡ others actor (users.rows w.db)
  others-soft_delete id w = elim (soft_delete_cases p laws actor id w) [
    | inl (u, stored, same, _, _, inl (_, e)) ↦ rw e
    | inl (u, stored, same, _, _, inr (inl (_, _, e))) ↦ rw e
    | inl (u, stored, same, _, _, inr (inr (_, lower, _, e))) ↦ rw e (
        others-retire u id w.db stored same
          (ground (arith, lower, allowed_by_rank actor.role u.role)))
    | inr (inl (_, e)) ↦ rw e
    | inr (inr (_, _, e)) ↦ rw e
  ]

  others-handler :
      (request : Request) (w : World p.Db p.Redis)
      → others actor (users.rows (run_handler p request actor w).1.db)
        ≡ others actor (users.rows w.db)
  unfolding run_handler
  others-handler (create_user dto) w = ground (arith, others-create dto w)
  others-handler (get_users dto) w = unfold list in (ground arith)
  others-handler (delete_user id) w = ground (arith, others-soft_delete id w)

  others-handle :
      (request : Request) (w : World p.Db p.Redis)
      → others actor (users.rows (handle p request actor w).1.db) ≡ others actor (users.rows w.db)
  unfolding handle
  others-handle request w = ground (arith, others-handler request w)

abbrev pub owners : List User → List User
owners rows = keep (λ u. u.role == owner) rows

abbrev pub of_org : String → List User → List User
of_org org rows = keep (λ u. u.organization_id == org) rows

owners-others :
    (actor : AccessTokenPayload) (rows : List User) → owners (others actor rows) ≡ owners rows
owners-others actor rows = keep-keep _ _ rows λ u h. ground arith

of_org-others :
    (org : String) (actor : AccessTokenPayload) (rows : List User)
    → actor.organization_id ≢ org
    → of_org org (others actor rows) ≡ of_org org rows
of_org-others org actor rows other = keep-keep _ _ rows λ u h.
    ground (arith, eq_iff u.organization_id org, eq_iff u.organization_id actor.organization_id)

module _ (p : Platform) (laws : UserLaws p.users) where
  open p use {users}

  -- Whatever requests arrive at the users controller, in any order and whether they succeed or fail,
  -- the owners stay what they are: none is created, changed or deleted, by an owner neither.
  pub owners-serve :
      (requests : List (AccessTokenPayload × Request)) (w : World p.Db p.Redis)
      → owners (users.rows (serve p requests w).db) ≡ owners (users.rows w.db)
  unfolding serve
  owners-serve [] w = refl
  owners-serve ((actor, request) ∷ rest) w =
      owners-serve rest (handle p request actor w).1
      ∙ sym (owners-others actor _)
      ∙ ap owners (others-handle p laws actor request w)
      ∙ owners-others actor _

  -- Whatever requests the members of other organizations send to the users controller, in any order
  -- and whether they succeed or fail, the users of `org` stay what they are, the deleted ones too.
  pub users_of_org-serve :
      (org : String) (requests : List (AccessTokenPayload × Request)) (w : World p.Db p.Redis)
      → All (λ r. r.0.organization_id ≢ org) requests
      → of_org org (users.rows (serve p requests w).db) ≡ of_org org (users.rows w.db)
  unfolding serve
  users_of_org-serve org [] w h = refl
  users_of_org-serve org ((actor, request) ∷ rest) w (other, h) =
      users_of_org-serve org rest (handle p request actor w).1 h
      ∙ sym (of_org-others org actor _ other)
      ∙ ap (of_org org) (others-handle p laws actor request w)
      ∙ of_org-others org actor _ other
