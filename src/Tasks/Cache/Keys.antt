-- ===== src/Tasks/Cache/Keys.antt =====
-- When two requests share an entry of the list cache, they ask for the same list.
use Prim.Native.String.{◌++◌}
use text.Mathlib.TextLemmas.{append_cancel_left, append_cancel_right, append_assoc, nil-append}
use nestjs_team_tasks_api.Prelude.{
  String, [], ◌∷◌, ◌≡◌, ◌≢◌, ap, sym, ◌∙◌, ◌⊎◌, inl, inr, arith, eq_iff, string_eq,
}
use nestjs_team_tasks_api.Js.{template}
use nestjs_team_tasks_api.Js.Number.{ℤ, show_int, parse_int}
use nestjs_team_tasks_api.Js.Number.RoundTrip.{parse_int-show_int}
use nestjs_team_tasks_api.Js.Text.{NoColon, split_colon, show_int-NoColon}
use nestjs_team_tasks_api.Entities.{AccessTokenPayload, employee, role_eq, status_eq, priority_eq}
use nestjs_team_tasks_api.Platform.{Platform}
use nestjs_team_tasks_api.Tasks.Dto.{ListTasksQueryDto}
use nestjs_team_tasks_api.Tasks.Cache.{
  tasks_list_scope, stable_parts, tasks_list_filters_hash, tasks_list_cache_entry_key,
}
use nestjs_team_tasks_api.Tasks.Objects.{list_criteria, list_options}
use nestjs_team_tasks_api.Tasks.Cache.Parts.{parts-injective}

show_int-injective : (a b : ℤ) → show_int a ≡ show_int b → a ≡ b
show_int-injective a b h =
    let same = sym (parse_int-show_int a) ∙ ap parse_int h ∙ parse_int-show_int b in cc

-- the parts of an entry's key, from left to right
split_key :
    (org org' ver ver' rest rest' : String)
    → NoColon org
    → NoColon org'
    → NoColon ver
    → NoColon ver'
    → org ++ (":v" ++ (ver ++ (":" ++ rest))) ≡ org' ++ (":v" ++ (ver' ++ (":" ++ rest')))
    → (org ≡ org') × (ver ≡ ver') × (rest ≡ rest')
split_key org org' ver ver' rest rest' a a' b b' h =
    let (same, tail) =
      split_colon org org' ("v" ++ (ver ++ (":" ++ rest))) ("v" ++ (ver' ++ (":" ++ rest'))) a a' (
        ap (λ t. org ++ t) (sym (append_assoc ":" "v" _))
        ∙ h
        ∙ ap (λ t. org' ++ t) (append_assoc ":" "v" _)) in
    let (same', tail') = split_colon ver ver' rest rest' b b' (append_cancel_left "v" _ _ tail) in
    (same, same', tail')

emp_text : (sub s : String) → template ("emp:" ∷ sub ∷ []) ++ s ≡ "emp" ++ (":" ++ (sub ++ s))
emp_text sub s =
    append_assoc "emp:" (sub ++ "") s
    ∙ ap (λ r. "emp:" ++ r) (append_assoc sub "" s ∙ ap (λ r. sub ++ r) (nil-append s))
    ∙ append_assoc "emp" ":" (sub ++ s)

scope_cases :
    (a : AccessTokenPayload) (s : String)
    → ((a.role ≡ employee)
        × (tasks_list_scope a ++ (":" ++ s) ≡ "emp" ++ (":" ++ (a.sub ++ (":" ++ s)))))
      ⊎ ((a.role ≢ employee) × (tasks_list_scope a ++ (":" ++ s) ≡ "staff" ++ (":" ++ s)))
unfolding tasks_list_scope
scope_cases a s = ground (arith, emp_text a.sub (":" ++ s))

abbrev emp_NoColon : NoColon "emp"
emp_NoColon = (omega arith, (omega arith, (omega arith, tt)))

abbrev staff_NoColon : NoColon "staff"
staff_NoColon = (omega arith, (omega arith, (omega arith, (omega arith, (omega arith, tt)))))

abbrev SameReader : AccessTokenPayload → AccessTokenPayload → Type 0
SameReader a b =
    ((a.role ≡ employee) × (b.role ≡ employee) × (a.sub ≡ b.sub))
    ⊎ ((a.role ≢ employee) × (b.role ≢ employee))

-- The scope and the filters of a key come apart, since an identifier has no colon.
split_scope :
    (a b : AccessTokenPayload) (s t : String)
    → NoColon a.sub
    → NoColon b.sub
    → tasks_list_scope a ++ (":" ++ s) ≡ tasks_list_scope b ++ (":" ++ t)
    → SameReader a b × (s ≡ t)
split_scope a b s t ha hb h = elim (scope_cases a s) [
  | inl (ra, ea) ↦ elim (scope_cases b t) [
    | inl (rb, eb) ↦
        let (_, rest) = split_colon "emp" "emp" _ _ emp_NoColon emp_NoColon (sym ea ∙ h ∙ eb) in
        let (same, same') = split_colon a.sub b.sub s t ha hb rest in (inl (ra, rb, same), same')
    | inr (rb, eb) ↦
        let (clash, _) =
          split_colon "emp" "staff" _ _ emp_NoColon staff_NoColon (sym ea ∙ h ∙ eb) in
        absurd (ground (arith, clash, eq_iff "emp" "staff", eq_iff "staff" "emp"))
  ]
  | inr (ra, ea) ↦ elim (scope_cases b t) [
    | inl (rb, eb) ↦
        let (clash, _) =
          split_colon "staff" "emp" _ _ staff_NoColon emp_NoColon (sym ea ∙ h ∙ eb) in
        absurd (ground (arith, clash, eq_iff "emp" "staff", eq_iff "staff" "emp"))
    | inr (rb, eb) ↦
        let (_, rest) =
          split_colon "staff" "staff" _ _ staff_NoColon staff_NoColon (sym ea ∙ h ∙ eb) in
        (inr (ra, rb), rest)
  ]
]

list_options_of_parts :
    (a b : AccessTokenPayload) (q r : ListTasksQueryDto)
    → SameReader a b
    → a.organization_id ≡ b.organization_id
    → stable_parts a q ≡ stable_parts b r
    → list_options a q ≡ list_options b r
unfolding list_options list_criteria
list_options_of_parts a b q r same org parts = ground (arith, parts-injective a b q r parts)

module _ (p : Platform) where
  -- Two requests with the same entry key, whose users' and organizations' ids hold no colon and whose
  -- digests do not collide, belong to the same organization at the same version of its lists, and make
  -- the same query of the database.
  pub tasks_list_cache_entry_key-injective :
      (a b : AccessTokenPayload) (v u : ℤ) (q r : ListTasksQueryDto)
      → NoColon a.organization_id
      → NoColon b.organization_id
      → NoColon a.sub
      → NoColon b.sub
      → (p.digest (stable_parts a q) ≡ p.digest (stable_parts b r)
          → stable_parts a q ≡ stable_parts b r)
      → tasks_list_cache_entry_key p a.organization_id v a q
        ≡ tasks_list_cache_entry_key p b.organization_id u b r
      → (a.organization_id ≡ b.organization_id) × (v ≡ u) × (list_options a q ≡ list_options b r)
  unfolding tasks_list_cache_entry_key tasks_list_filters_hash
  tasks_list_cache_entry_key-injective a b v u q r ao bo sa sb no_collision h =
      let (org, ver, rest) =
        split_key a.organization_id b.organization_id (show_int v) (show_int u) _ _ ao bo
          (show_int-NoColon v) (show_int-NoColon u) (append_cancel_left "tasks:list:" _ _ h) in
      let (same, hash) = split_scope a b _ _ sa sb rest in
      (
        org,
        show_int-injective v u ver,
        list_options_of_parts a b q r same org (no_collision (append_cancel_right _ _ "" hash)),
      )

  -- keys of different versions are different
  pub key-ne :
      (a b : AccessTokenPayload) (v u : ℤ) (q r : ListTasksQueryDto)
      → NoColon a.organization_id
      → NoColon b.organization_id
      → v ≢ u
      → tasks_list_cache_entry_key p a.organization_id v a q
        ≢ tasks_list_cache_entry_key p b.organization_id u b r
  unfolding tasks_list_cache_entry_key
  key-ne a b v u q r ao bo differ h =
      let (_, ver, _) =
        split_key a.organization_id b.organization_id (show_int v) (show_int u) _ _ ao bo
          (show_int-NoColon v) (show_int-NoColon u) (append_cancel_left "tasks:list:" _ _ h) in
      differ (show_int-injective v u ver)
