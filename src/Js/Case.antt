-- ===== src/Js/Case.antt =====
-- `toLowerCase` and `toUpperCase` of ASCII texts. Other characters stay as they are here: the program
-- lowers a text only to compare it with an ASCII word that no other character is lowered into.
use Prim.Native.Char.{Char, code}
use Prim.Native.String.{[], ◌∷◌, char_at}
use nestjs_team_tasks_api.Prelude.{◌-◌, String, ◌&&◌, leb, if◌then◌else◌}

abbrev pub lower_char : Char → Char
lower_char c =
    if leb b'A' (code c) && leb (code c) b'Z'
    then char_at "abcdefghijklmnopqrstuvwxyz" (code c - b'A')
    else c

abbrev pub upper_char : Char → Char
upper_char c =
    if leb b'a' (code c) && leb (code c) b'z'
    then char_at "ABCDEFGHIJKLMNOPQRSTUVWXYZ" (code c - b'a')
    else c

unfoldable pub to_lower : String → String
to_lower [] = []
to_lower (c ∷ s) = lower_char c ∷ to_lower s

-- the first character in upper case and the rest in lower case
unfoldable pub capitalize : String → String
unfolding to_lower
capitalize [] = []
capitalize (c ∷ s) = upper_char c ∷ to_lower s
