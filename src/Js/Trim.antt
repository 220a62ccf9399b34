-- ===== src/Js/Trim.antt =====
-- `String.prototype.trim`.
use Prim.Native.Char.{code}
use Prim.Native.String.{[], ◌∷◌}
use nestjs_team_tasks_api.Prelude.{String, Bool, true, false, ◌&&◌, if◌then◌else◌}
use nestjs_team_tasks_api.Js.Number.{is_space, skip_spaces}

abbrev is_empty : String → Bool
is_empty [] = true
is_empty (c ∷ s) = false

unfoldable pub trim_end : String → String
unfolding is_space
trim_end [] = []
trim_end (c ∷ s) =
    let rest = trim_end s in if is_space (code c) && is_empty rest then [] else c ∷ rest

unfoldable pub trim : String → String
unfolding trim_end skip_spaces
trim s = trim_end (skip_spaces s)
