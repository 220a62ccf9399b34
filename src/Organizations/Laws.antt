-- ===== src/Organizations/Laws.antt =====
-- What a request to the organizations controller does.
use mathlib.Core.List.{Memᴰ}
use nestjs_team_tasks_api.Prelude.{
  false, List, map, ◌≡◌, ◌≢◌, ◌⊎◌, inl, inr, refl, arith, eq_iff, map-eq, some, Bool-cases, ◌∙◌,
  ◌==◌, string_eq, if◌then◌else◌, none,
}
use nestjs_team_tasks_api.Js.{value}
use nestjs_team_tasks_api.Entities.{
  owner, role_eq, Organization, OrganizationObject, AccessTokenPayload, load_organization, Date,
}
use nestjs_team_tasks_api.Exec.{Failure, ok, throw, forbidden, not_found}
use nestjs_team_tasks_api.Exec.Cases.{found_cases, saved_cases}
use nestjs_team_tasks_api.Platform.{Platform, World, matches_organization, write_organization}
use nestjs_team_tasks_api.Platform.Laws.{OrganizationLaws}
use nestjs_team_tasks_api.Organizations.Service.{
  UpdateOrganizationDto, to_dto, live_id, update_me, update_my_organization, handle,
}

module _ (p : Platform) (laws : OrganizationLaws p.organizations) (actor : AccessTokenPayload)
    (w : World p.Db p.Redis) (dto : UpdateOrganizationDto) where
  open p use {organizations}

  -- the actor's organization with the new name, and each other row as it was
  abbrev pub renamed : Date → List Organization → List Organization
  renamed now rows =
      map
        (λ r.
          if r.id == actor.organization_id
          then record r { name = dto.name; updated_at = now }
          else r)
        rows

  -- the object that a rename saves
  abbrev pub patched : Organization → OrganizationObject
  patched org = record (load_organization org) { name = value dto.name }

  -- how a rename of a live organization ends
  abbrev pub Renames : Organization → Type 0
  Renames org =
      ((now : Date) × ((update_me p dto actor w).0
          ≡ ok (to_dto (load_organization (record org { name = dto.name; updated_at = now }))))
        × (organizations.rows (update_me p dto actor w).1.db
            ≡ renamed now (organizations.rows w.db)))
      ⊎ ((f : Failure) × ((organizations.save (patched org) w.db).0 ≡ throw f)
          × ((update_me p dto actor w).0 ≡ throw f)
          × (organizations.rows (update_me p dto actor w).1.db ≡ organizations.rows w.db))

  write_patched :
      (org s : Organization) (now : Date)
      → org.id ≡ actor.organization_id
      → (s.id ≡ org.id → s ≡ org)
      → (if s.id == org.id then write_organization now (patched org) s else s) ≡ (
          if s.id == actor.organization_id
          then record s { name = dto.name; updated_at = now }
          else s)
  write_patched org s now mine key =
      ground (arith, mine, key, eq_iff s.id org.id, eq_iff s.id actor.organization_id)

  renames :
      (org : Organization)
      → Memᴰ org (organizations.rows w.db)
      → org.id ≡ actor.organization_id
      → organizations.find_one (live_id actor.organization_id) w.db ≡ ok (some org)
      → Renames org
  unfolding update_me
  renames org stored mine e = elim (saved_cases (organizations.save (patched org) w.db)) [
    | inl (o', db', s) ↦
        let (now, saved, rows) = laws.save_old (patched org) o' w.db db' org stored refl s in
        inl (
          now,
          ground (arith, e, s, saved),
          rw (e, s)
              (rows
                ∙ map-eq _ _ (organizations.rows w.db)
                    λ r m. write_patched org r now mine (laws.primary_key w.db r org m stored)),
        )
    | inr (f, db', s) ↦
        let rows = laws.save_throws (patched org) w.db db' f s in
        inr (f, ground (arith, s), ground (arith, e, s), ground (arith, e, s, rows))
  ]

  update_me_cases :
      ((org : Organization) × Memᴰ org (organizations.rows w.db)
        × (org.id ≡ actor.organization_id)
        × (org.deleted_at ≡ none)
        × Renames org)
      ⊎ ((((org : Organization)
              → Memᴰ org (organizations.rows w.db)
              → matches_organization (live_id actor.organization_id) org ≡ false)
            × (update_me p dto actor w ≡ (throw (not_found "Organization not found"), w)))
          ⊎ ((f : Failure) × (organizations.find_one (live_id actor.organization_id) w.db ≡ throw f)
              × (update_me p dto actor w ≡ (throw f, w))))
  unfolding update_me
  update_me_cases =
      elim (found_cases (organizations.find_one (live_id actor.organization_id) w.db)) [
        | inl (org, e) ↦
            let (stored, m) = laws.find_one_some _ w.db org e in
            let facts : (org.id ≡ actor.organization_id) × (org.deleted_at ≡ none) =
              ground (arith, m, eq_iff org.id actor.organization_id) in
            inl (org, stored, facts.0, facts.1, renames org stored facts.0 e)
        | inr (inl e) ↦ inr (inl ((λ r m. laws.find_one_none _ w.db r e m), ground (arith, e)))
        | inr (inr (f, e)) ↦ inr (inr (f, e, ground (arith, e)))
      ]

  -- `PATCH /organizations/me` is refused with `forbidden` to anybody but an owner, with the world as it
  -- was. For an owner it renames the actor's own live organization and no other row, and returns it
  -- with the new name; it throws `not_found` if that organization is not live, or the error of a query
  -- that failed, and then leaves the organizations as they were.
  pub update_my_organization_cases :
      ((actor.role ≢ owner)
        × (handle p (update_my_organization dto) actor w
            ≡ (throw (forbidden "Insufficient permissions"), w)))
      ⊎ ((actor.role ≡ owner)
          × (handle p (update_my_organization dto) actor w ≡ update_me p dto actor w)
          × (((org : Organization) × Memᴰ org (organizations.rows w.db)
                × (org.id ≡ actor.organization_id)
                × (org.deleted_at ≡ none)
                × Renames org)
              ⊎ ((((org : Organization)
                      → Memᴰ org (organizations.rows w.db)
                      → matches_organization (live_id actor.organization_id) org ≡ false)
                    × (update_me p dto actor w ≡ (throw (not_found "Organization not found"), w)))
                  ⊎ ((f : Failure) × (organizations.find_one (live_id actor.organization_id) w.db
                        ≡ throw f)
                      × (update_me p dto actor w ≡ (throw f, w))))))
  unfolding handle
  update_my_organization_cases = elim (Bool-cases (actor.role == owner)) [
    | inl is_owner ↦ inr (ground (arith, is_owner), ground (arith, is_owner), update_me_cases)
    | inr not_owner ↦ inl (ground (arith, not_owner), ground (arith, not_owner))
  ]
