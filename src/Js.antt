-- ===== src/Js.antt =====
-- The parts of JavaScript that the program's text relies on: properties that may be absent,
-- `undefined` or `null`, truthiness, object spread, and template literals.
pub mod Number
pub mod Text
pub mod Double
pub mod Sort
pub mod Case
pub mod Trim
pub mod Split
use Prim.Native.String.{◌++◌}
use nestjs_team_tasks_api.Prelude.{
  String, Bool, true, false, not, List, Option, none, some, StrictEquality, ◌==◌, string_eq,
  if◌then◌else◌,
}
use mathlib.Core.List.{[], ◌∷◌}

-- A property of an object. An absent property reads as `undefined`; it differs from an own
-- property with the value `undefined` in a spread.
pub data Field {ℓ} (A : Type ℓ) : Type ℓ where
  absent undefined null : Field A
  value : A → Field A

module _ {ℓ} {A : Type ℓ} where
  -- `x !== undefined`
  abbrev pub is_defined : Field A → Bool
  is_defined absent = false
  is_defined undefined = false
  is_defined null = true
  is_defined (value a) = true

  -- `x ?? d`
  abbrev pub coalesce : Field A → A → A
  coalesce (value a) d = a
  coalesce _ d = d

  -- `if (x !== undefined) o.f = x`, for an object `o` that has no `f` yet
  abbrev pub assign_defined : Field A → Field A
  assign_defined absent = absent
  assign_defined undefined = absent
  assign_defined null = null
  assign_defined (value a) = value a

  -- the property of `{ ...old, ...new }`
  abbrev pub spread : Field A → Field A → Field A
  spread old absent = old
  spread old undefined = undefined
  spread old null = null
  spread old (value a) = value a

  -- `x === c`
  abbrev pub equals : ⦃e : StrictEquality A⦄ → Field A → A → Bool
  equals (value a) c = a == c
  equals _ c = false

-- a string is truthy unless it is empty
abbrev pub truthy : String → Bool
truthy s = not (s == "")

-- the string of a property, if the property is truthy
abbrev pub truthy_field : Field String → Option String
truthy_field (value s) = if truthy s then some s else none
truthy_field _ = none

-- a template literal, as the list of its parts
abbrev pub template : List String → String
template [] = ""
template (part ∷ parts) = part ++ template parts
