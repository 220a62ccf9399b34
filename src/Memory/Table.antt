-- ===== src/Memory/Table.antt =====
-- A table, with the repository over it.
use mathlib.Core.List.{Memᴰ}
use mathlib.Core.Path.{subst}
use nestjs_team_tasks_api.Prelude.{
  String, Bool, true, false, Option, none, some, List, [], ◌∷◌, map, ◌≡◌, ◌≢◌, refl, sym, ap, ◌∙◌,
  inl, inr, arith, eq_iff, All, keep, has, string_eq, if◌then◌else◌, Bool-cases,
}

module _ {Row : Type 0} (id_of : Row → String) where
  abbrev pub Unique : List Row → Type 0
  Unique [] = Unit
  Unique (r ∷ rs) = All (λ s. id_of s ≢ id_of r) rs × Unique rs

  pub record Table : Type 0 where
    pub held : List Row
    pub unique : Unique held

  mem-All : (P : Row → Type 0) (rs : List Row) {r : Row} → All P rs → Memᴰ r rs → P r
  mem-All P [] h m = elim m [ ]
  mem-All P (s ∷ rs) h (Memᴰ.head e) = subst P (sym e) h.0
  mem-All P (s ∷ rs) h (Memᴰ.tail m) = mem-All P rs h.1 m

  pub primary_key_of :
      (rs : List Row) (a b : Row) → Unique rs → Memᴰ a rs → Memᴰ b rs → id_of a ≡ id_of b → a ≡ b
  primary_key_of [] a b u ma mb e = elim ma [ ]
  primary_key_of (r ∷ rs) a b u (Memᴰ.head p) (Memᴰ.head q) e = p ∙ sym q
  primary_key_of (r ∷ rs) a b u (Memᴰ.head p) (Memᴰ.tail m) e =
      absurd (mem-All (λ s. id_of s ≢ id_of r) rs u.0 m (sym e ∙ ap id_of p))
  primary_key_of (r ∷ rs) a b u (Memᴰ.tail m) (Memᴰ.head q) e =
      absurd (mem-All (λ s. id_of s ≢ id_of r) rs u.0 m (e ∙ ap id_of q))
  primary_key_of (r ∷ rs) a b u (Memᴰ.tail m) (Memᴰ.tail n) e = primary_key_of rs a b u.1 m n e

  All-map_id :
      (f : Row → Row) (i : String) (rs : List Row)
      → ((r : Row) → id_of (f r) ≡ id_of r)
      → All (λ s. id_of s ≢ i) rs
      → All (λ s. id_of s ≢ i) (map f rs)
  All-map_id f i [] h u = tt
  All-map_id f i (r ∷ rs) h u = (λ e. u.0 (sym (h r) ∙ e), All-map_id f i rs h u.1)

  pub Unique-map :
      (f : Row → Row) (rs : List Row)
      → ((r : Row) → id_of (f r) ≡ id_of r)
      → Unique rs
      → Unique (map f rs)
  Unique-map f [] h u = tt
  Unique-map f (r ∷ rs) h u = (rw (h r) (All-map_id f (id_of r) rs h u.0), Unique-map f rs h u.1)

  pub fresh_of_has :
      (i : String) (rs : List Row) → has (map id_of rs) i ≡ false → All (λ s. id_of s ≢ i) rs
  fresh_of_has i [] h = tt
  fresh_of_has i (r ∷ rs) h = (ground (arith, eq_iff (id_of r) i), fresh_of_has i rs (ground arith))

  pub has_of_mem : (rs : List Row) (r : Row) → Memᴰ r rs → has (map id_of rs) (id_of r) ≡ true
  has_of_mem [] r m = elim m [ ]
  has_of_mem (s ∷ rs) r (Memᴰ.head e) = ground (arith, eq_iff (id_of s) (id_of r), ap id_of e)
  has_of_mem (s ∷ rs) r (Memᴰ.tail m) = ground (arith, has_of_mem rs r m)

  -- the first row that a test accepts
  abbrev pub first : (Row → Bool) → List Row → Option Row
  first p [] = none
  first p (r ∷ rs) = let rest = first p rs in if p r then some r else rest

  pub first-some :
      (p : Row → Bool) (rs : List Row) (r : Row) → first p rs ≡ some r → Memᴰ r rs × (p r ≡ true)
  first-some p [] r e = cc
  first-some p (s ∷ rs) r e = elim (Bool-cases (p s)) [
    | inl h ↦ let same : s ≡ r = ground arith in (Memᴰ.head (sym same), rw (← same) h)
    | inr h ↦ let (m, q) = first-some p rs r (ground arith) in (Memᴰ.tail m, q)
  ]

  pub first-none :
      (p : Row → Bool) (rs : List Row) (r : Row) → first p rs ≡ none → Memᴰ r rs → p r ≡ false
  first-none p [] r e m = elim m [ ]
  first-none p (s ∷ rs) r e (Memᴰ.head q) = ground (arith, ap p q)
  first-none p (s ∷ rs) r e (Memᴰ.tail m) = first-none p rs r (ground arith) m

module _ {ℓ} {Row : Type ℓ} where
  abbrev pub not_empty : List Row → Bool
  not_empty [] = false
  not_empty (r ∷ rs) = true

module _ {Row : Type 0} (p : Row → Bool) where
  pub exists_true_of :
      (rs : List Row) → not_empty (keep p rs) ≡ true → (r : Row) × Memᴰ r rs × (p r ≡ true)
  exists_true_of [] e = cc
  exists_true_of (r ∷ rs) e = elim (Bool-cases (p r)) [
    | inl h ↦ (r, Memᴰ.head refl, h)
    | inr h ↦ let (s, m, q) = exists_true_of rs (ground arith) in (s, Memᴰ.tail m, q)
  ]

  pub exists_false_of :
      (rs : List Row) (r : Row) → not_empty (keep p rs) ≡ false → Memᴰ r rs → p r ≡ false
  exists_false_of [] r e m = elim m [ ]
  exists_false_of (s ∷ rs) r e (Memᴰ.head q) = ground (arith, ap p q)
  exists_false_of (s ∷ rs) r e (Memᴰ.tail m) = exists_false_of rs r (ground arith) m
