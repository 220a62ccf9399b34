-- ===== src/Projects/Unique.antt =====
-- Tables in which the live projects of an organization have distinct names.
use mathlib.Core.List.{Memᴰ}
use nestjs_team_tasks_api.Prelude.{
  false, none, List, ◌∷◌, map, ◌≡◌, sym, ap, ◌∙◌, arith, eq_iff, mem-map, string_eq,
}
use nestjs_team_tasks_api.Entities.{Project}
use nestjs_team_tasks_api.Platform.{matches_project}
use nestjs_team_tasks_api.Projects.Service.{live_name}

-- two live projects of one organization with one name are one project
unfoldable pub UniqueNames : List Project → Type 0
UniqueNames rows =
    (a b : Project)
    → Memᴰ a rows
    → Memᴰ b rows
    → a.deleted_at ≡ none
    → b.deleted_at ≡ none
    → a.organization_id ≡ b.organization_id
    → a.name ≡ b.name
    → a.id ≡ b.id

pub UniqueNames-insert :
    (t : Project) (rows : List Project)
    → ((s : Project) → Memᴰ s rows → matches_project (live_name t.name t.organization_id) s ≡ false)
    → UniqueNames rows
    → UniqueNames (t ∷ rows)
unfolding UniqueNames
UniqueNames-insert t rows free h a b (Memᴰ.head p) (Memᴰ.head q) la lb o n =
    ap (λ r. r.id) (p ∙ sym q)
UniqueNames-insert t rows free h a b (Memᴰ.head p) (Memᴰ.tail m) la lb o n = absurd (
    ground (
      arith,
      free b m,
      p,
      lb,
      o,
      n,
      eq_iff b.name t.name,
      eq_iff b.organization_id t.organization_id,
    ))
UniqueNames-insert t rows free h a b (Memᴰ.tail m) (Memᴰ.head q) la lb o n = absurd (
    ground (
      arith,
      free a m,
      q,
      la,
      o,
      n,
      eq_iff a.name t.name,
      eq_iff a.organization_id t.organization_id,
    ))
UniqueNames-insert t rows free h a b (Memᴰ.tail m) (Memᴰ.tail m') la lb o n = h a b m m' la lb o n

-- a map that keeps the id, the organization and, but for one row, the name of what it leaves live
pub UniqueNames-map :
    (f : Project → Project) (rows : List Project)
    → ((s : Project)
        → Memᴰ s rows
        → (f s).deleted_at ≡ none
        → (s.deleted_at ≡ none) × ((f s).id ≡ s.id) × ((f s).organization_id ≡ s.organization_id))
    → ((s r : Project)
        → Memᴰ s rows
        → Memᴰ r rows
        → s.deleted_at ≡ none
        → r.deleted_at ≡ none
        → s.organization_id ≡ r.organization_id
        → (f s).name ≡ (f r).name
        → s.id ≡ r.id)
    → UniqueNames (map f rows)
unfolding UniqueNames
UniqueNames-map f rows keeps distinct a b ma mb la lb o n =
    let (s, ms, es) = mem-map f rows ma in
    let (r, mr, er) = mem-map f rows mb in
    let (ls, is, os) = keeps s ms (ap (λ x. x.deleted_at) (sym es) ∙ la) in
    let (lr, ir, or) = keeps r mr (ap (λ x. x.deleted_at) (sym er) ∙ lb) in
    ap (λ x. x.id) es
    ∙ is
    ∙ distinct s r ms mr ls lr
        (sym os ∙ ap (λ x. x.organization_id) (sym es) ∙ o ∙ ap (λ x. x.organization_id) er ∙ or)
        (ap (λ x. x.name) (sym es) ∙ n ∙ ap (λ x. x.name) er)
    ∙ sym ir
    ∙ ap (λ x. x.id) (sym er)
