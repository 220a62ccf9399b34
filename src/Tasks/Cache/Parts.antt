-- ===== src/Tasks/Cache/Parts.antt =====
-- A list request's filters can be read back from the parts that make its cache key.
use nestjs_team_tasks_api.Prelude.{
  String, Option, none, some, List, [], ◌∷◌, ◌≡◌, ◌≢◌, refl, ap, sym, ◌∙◌, arith, ◌==◌, string_eq,
  if◌then◌else◌,
}
use nestjs_team_tasks_api.Entities.{
  AccessTokenPayload, employee, role_eq, status_eq, priority_eq, TaskStatus, TaskPriority, todo,
  in_progress, done, overdue, low, medium, high,
}
use nestjs_team_tasks_api.Platform.{Part, num, txt}
use nestjs_team_tasks_api.Tasks.Dto.{ListTasksQueryDto}
use nestjs_team_tasks_api.Tasks.Cache.{status_text, priority_text, stable_parts}

-- the part at a name
part_at : String → List (String × Part) → Option Part
part_at name [] = none
part_at name (e ∷ parts) = let rest = part_at name parts in if e.0 == name then some e.1 else rest

abbrev text_part {ℓ} : {A : Type ℓ} → (A → String) → Option A → Option Part
text_part text none = none
text_part text (some a) = some (txt (text a))

-- what the sorted parts hold at each name
parts_lem :
    (a : AccessTokenPayload) (q : ListTasksQueryDto)
    → (part_at "p" (stable_parts a q) ≡ some (num q.current_page))
      × (part_at "ipp" (stable_parts a q) ≡ some (num q.items_per_page))
      × (part_at "s" (stable_parts a q) ≡ text_part status_text q.status)
      × (part_at "pr" (stable_parts a q) ≡ text_part priority_text q.priority)
      × (a.role ≢ employee → part_at "a" (stable_parts a q) ≡ text_part (λ t. t) q.assignee_id)
unfolding stable_parts part_at
parts_lem a q = ground arith

abbrev status_from : String → TaskStatus
status_from s =
    if s == "todo"
    then todo
    else if s == "in_progress"
    then in_progress
    else if s == "done"
    then done
    else overdue

status_from-status_text : (a : TaskStatus) → status_from (status_text a) ≡ a
status_from-status_text todo = refl
status_from-status_text in_progress = refl
status_from-status_text done = refl
status_from-status_text overdue = refl

abbrev priority_from : String → TaskPriority
priority_from s = if s == "low" then low else if s == "medium" then medium else high

priority_from-priority_text : (a : TaskPriority) → priority_from (priority_text a) ≡ a
priority_from-priority_text low = refl
priority_from-priority_text medium = refl
priority_from-priority_text high = refl

abbrev part_from {ℓ} : {A : Type ℓ} → (String → A) → Option Part → Option A
part_from back (some (txt t)) = some (back t)
part_from back _ = none

part_from-text_part :
    {A : Type 0} (text : A → String) (back : String → A)
    → ((a : A) → back (text a) ≡ a)
    → (o : Option A) → part_from back (text_part text o) ≡ o
part_from-text_part text back inverse none = refl
part_from-text_part text back inverse (some a) = ap some (inverse a)

text_part-injective :
    {A : Type 0} (text : A → String) (back : String → A)
    → ((a : A) → back (text a) ≡ a)
    → (o o' : Option A) → text_part text o ≡ text_part text o'
    → o ≡ o'
text_part-injective text back inverse o o' h =
    sym (part_from-text_part text back inverse o)
    ∙ ap (part_from back) h
    ∙ part_from-text_part text back inverse o'

-- A query can be read back from the parts that make its key.
pub parts-injective :
    (a b : AccessTokenPayload) (q r : ListTasksQueryDto)
    → stable_parts a q ≡ stable_parts b r
    → (q.current_page ≡ r.current_page)
      × (q.items_per_page ≡ r.items_per_page)
      × (q.status ≡ r.status)
      × (q.priority ≡ r.priority)
      × (a.role ≢ employee → b.role ≢ employee → q.assignee_id ≡ r.assignee_id)
parts-injective a b q r h =
    let (page, per_page, status, priority, assignee) = parts_lem a q in
    let (page', per_page', status', priority', assignee') = parts_lem b r in
    let same_page = sym page ∙ ap (part_at "p") h ∙ page' in
    let same_per_page = sym per_page ∙ ap (part_at "ipp") h ∙ per_page' in
    (
      cc,
      cc,
      text_part-injective status_text status_from status_from-status_text _ _
          (sym status ∙ ap (part_at "s") h ∙ status'),
      text_part-injective priority_text priority_from priority_from-priority_text _ _
          (sym priority ∙ ap (part_at "pr") h ∙ priority'),
      λ staff staff'.
          text_part-injective (λ t. t) (λ t. t) (λ t. refl) _ _
            (sym (assignee staff) ∙ ap (part_at "a") h ∙ assignee' staff'),
    )
