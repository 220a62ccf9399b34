-- ===== src/Auth/Bearer.antt =====
-- src/modules/auth/strategies/jwt.strategy.ts: the token of a request. The strategy of passport-jwt
-- that verifies it is a library.
use Prim.Native.String.{◌++◌}
use nestjs_team_tasks_api.Prelude.{
  String, ◌&&◌, Option, none, some, List, [], ◌∷◌, ◌≡◌, refl, true, ◌==◌, string_eq, if◌then◌else◌,
  ap, ◌∙◌,
}
use nestjs_team_tasks_api.Js.{Field, value, truthy}
use nestjs_team_tasks_api.Js.Case.{to_lower}
use nestjs_team_tasks_api.Js.Split.{split, Without, split-Without, split-append, one-append}
use nestjs_team_tasks_api.Entities.{AccessTokenPayload}

-- `const [scheme, token] = header.split(' ')`, and the test of both
abbrev pub token_of_parts : List String → Option String
token_of_parts (scheme ∷ token ∷ rest) =
    if to_lower scheme == "bearer" && truthy token then some token else none
token_of_parts _ = none

-- `jwtFromRequest`, of the header `authorization`
unfoldable pub jwt_from_request : Field String → Option String
unfolding split to_lower
jwt_from_request (value header) = token_of_parts (split b' ' header)
jwt_from_request _ = none

abbrev pub validate : AccessTokenPayload → AccessTokenPayload
validate payload = payload

-- From a header that is put together from a scheme, a space and a token, without spaces in them, the
-- token is read back if the scheme is "bearer" in any case and the token is not empty.
pub jwt_from_request-header :
    (scheme token : String)
    → Without b' ' scheme
    → Without b' ' token
    → to_lower scheme ≡ "bearer"
    → truthy token ≡ true
    → jwt_from_request (value (scheme ++ (" " ++ token))) ≡ some token
unfolding jwt_from_request
jwt_from_request-header scheme token s t bearer given =
    let parts : split b' ' (scheme ++ (" " ++ token)) ≡ scheme ∷ token ∷ [] =
      ap (λ r. split b' ' (scheme ++ r)) (one-append " " token)
      ∙ split-append " " scheme token s
      ∙ ap (◌∷◌ scheme) (split-Without b' ' token t) in
    rw (parts, bearer, given) refl
