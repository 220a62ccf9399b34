-- ===== src/Js/Split.antt =====
-- `String.prototype.split` and `Array.prototype.join` at one character.
use Prim.Native.Char.{Char, code}
use Prim.Native.String.{[], ◌∷◌, ◌++◌}
use text.Mathlib.TextLemmas.{nil-append, cons-append}
use nestjs_team_tasks_api.Prelude.{
  ℕ, String, List, Option, none, some, ◌≡◌, ◌≢◌, refl, ap, ◌∙◌, arith, nat_eqb, if◌then◌else◌,
  Bool-cases, inl, inr,
}
use mathlib.Core.Option

-- a character in front of the first part
abbrev pub push : Char → List String → List String
push c List.[] = List.◌∷◌ (c ∷ []) List.[]
push c (List.◌∷◌ part parts) = List.◌∷◌ (c ∷ part) parts

unfoldable pub split : ℕ → String → List String
split at [] = List.◌∷◌ "" List.[]
split at (c ∷ s) =
    let parts = split at s in if nat_eqb (code c) at then List.◌∷◌ "" parts else push c parts

-- a text of one character, in front of another text
pub one-append : (c : Char) (s : String) → (c ∷ []) ++ s ≡ c ∷ s
one-append c s = cons-append c [] s ∙ ap (λ r. c ∷ r) (nil-append s)

-- no character of the text is the one to split at
abbrev pub Without : ℕ → String → Type 0
Without at [] = Unit
Without at (c ∷ s) = (code c ≢ at) × Without at s

pub split-Without : (at : ℕ) (s : String) → Without at s → split at s ≡ List.◌∷◌ s List.[]
unfolding split
split-Without at [] h = refl
split-Without at (c ∷ s) (h, rest) = ground (arith, h, split-Without at s rest)

pub split-append :
    (sep : Char) (a s : String)
    → Without (code sep) a
    → split (code sep) (a ++ (sep ∷ s)) ≡ List.◌∷◌ a (split (code sep) s)
unfolding split
split-append sep [] s h = rw (nil-append (sep ∷ s)) (ground arith)
split-append sep (c ∷ a) s (h, rest) =
    rw (cons-append c a (sep ∷ s)) (ground (arith, h, split-append sep a s rest))

-- `parts.join(separator)`
abbrev pub join : String → List String → String
join separator List.[] = ""
join separator (List.◌∷◌ part List.[]) = part
join separator (List.◌∷◌ part (List.◌∷◌ next parts)) =
    part ++ (separator ++ join separator (List.◌∷◌ next parts))

-- The text before the first occurrence of a character, and the text after it: `indexOf`, and the two
-- `slice`s at the index it finds.
abbrev pub before_too : Char → String × String → String × String
before_too c (a, b) = (c ∷ a, b)

unfoldable pub cut : ℕ → String → Option (String × String)
cut at [] = none
cut at (c ∷ s) =
    let later = cut at s in
    if nat_eqb (code c) at then some ([], s) else Option.map (before_too c) later

pub cut-append :
    (sep : Char) (a s : String)
    → Without (code sep) a
    → cut (code sep) (a ++ (sep ∷ s)) ≡ some (a, s)
unfolding cut
cut-append sep [] s h = rw (nil-append (sep ∷ s)) (ground arith)
cut-append sep (c ∷ a) s (h, rest) =
    rw (cons-append c a (sep ∷ s)) (ground (arith, h, cut-append sep a s rest))

before_too-Without :
    (c : Char) (o : Option (String × String)) (at : ℕ) (a b : String)
    → code c ≢ at
    → ((x y : String) → o ≡ some (x, y) → Without at x)
    → Option.map (before_too c) o ≡ some (a, b)
    → Without at a
before_too-Without c none at a b other h e = ground (arith, e)
before_too-Without c (some (x, y)) at a b other h e =
    let same : c ∷ x ≡ a = ap (λ o. elim o [ none ↦ a | some r ↦ r.0 ]) e in
    rw (← same) (other, h x y refl)

-- the text before the first occurrence does not hold the character
pub cut-Without : (at : ℕ) (s a b : String) → cut at s ≡ some (a, b) → Without at a
unfolding cut
cut-Without at [] a b h = ground (arith, h)
cut-Without at (c ∷ s) a b h = elim (Bool-cases (nat_eqb (code c) at)) [
  | inl e ↦
      let same : [] ≡ a = ap (λ o. elim o [ none ↦ a | some r ↦ r.0 ]) (rw e at h) in rw (← same) tt
  | inr e ↦
      before_too-Without c (cut at s) at a b (λ k. ground (arith, e, k))
        (λ x y. cut-Without at s x y) (rw e at h)
]
