-- ===== src/Swagger/Setup.antt =====
-- src/swagger/setup-swagger.ts, behind the test of src/main.ts: when the documentation is served, and to
-- whom. Decoding base64 and making the document are of libraries.
use nestjs_team_tasks_api.Prelude.{
  String, Bool, false, not, ◌&&◌, Option, none, some, List, [], ◌∷◌, ◌==◌, string_eq, if◌then◌else◌,
}
use nestjs_team_tasks_api.Js.{Field, value, truthy}
use nestjs_team_tasks_api.Js.Case.{to_lower}
use nestjs_team_tasks_api.Js.Split.{split, cut}

-- what `configService.get` returns for `swagger.enabled`, `swagger.user`, the `user` of `swagger`, and
-- the same of the password
pub record SwaggerSettings : Type 0 where
  pub enabled : Bool
  pub user : Field String
  pub nested_user : Field String
  pub password : Field String
  pub nested_password : Field String

pub record Credentials : Type 0 where
  pub user : String
  pub password : String

-- `a ?? b`
abbrev pub or_nullish : Field String → Field String → Field String
or_nullish (value a) b = value a
or_nullish _ b = b

-- both are strings, and neither is empty
abbrev pub both_given : Field String → Field String → Option Credentials
both_given (value user) (value password) =
    if truthy user && truthy password
    then some (record { user = user; password = password })
    else none
both_given _ _ = none

unfoldable pub get_basic_auth_credentials : SwaggerSettings → Option Credentials
get_basic_auth_credentials s =
    if s.enabled
    then both_given (or_nullish s.user s.nested_user) (or_nullish s.password s.nested_password)
    else none

abbrev pub credentials_of : Option (String × String) → Option Credentials
credentials_of none = none
credentials_of (some (user, password)) = some (record { user = user; password = password })

-- What a request gets: `setupSwagger` registered nothing, the gate refuses it, or it goes on to the routes of
-- the documentation.
pub data Answer : Type 0 where
  not_registered unauthorized_401 next : Answer

module _ (decode_base64 : String → String) where
  abbrev pub credentials_of_parts : List String → Option Credentials
  credentials_of_parts (scheme ∷ token ∷ rest) =
      if to_lower scheme == "basic" && truthy token
      then credentials_of (cut b':' (decode_base64 token))
      else none
  credentials_of_parts _ = none

  unfoldable pub parse_basic_auth_header : Field String → Option Credentials
  unfolding split
  parse_basic_auth_header (value header) = credentials_of_parts (split b' ' header)
  parse_basic_auth_header _ = none

  abbrev pub same_credentials : Option Credentials → Credentials → Bool
  same_credentials none basic_auth = false
  same_credentials (some creds) basic_auth =
      creds.user == basic_auth.user && creds.password == basic_auth.password

  -- the function that `setupSwagger` gives to `app.use`
  unfoldable pub middleware : Credentials → Field String → Answer
  unfolding parse_basic_auth_header
  middleware basic_auth authorization =
      if same_credentials (parse_basic_auth_header authorization) basic_auth
      then next
      else unauthorized_401

  -- `mounted paths path` is Express's test whether `app.use(paths, …)` handles a request for `path`
  module _ (mounted : List String → String → Bool) where
    -- `app.use`, and the routes of `SwaggerModule.setup` behind it
    abbrev pub registered : Option Credentials → String → Field String → Answer
    registered none path authorization = not_registered
    registered (some basic_auth) path authorization =
        if mounted ("/docs" ∷ "/docs-json" ∷ []) path
        then middleware basic_auth authorization
        else next

    unfoldable pub setup_swagger : SwaggerSettings → String → Field String → Answer
    unfolding get_basic_auth_credentials middleware
    setup_swagger settings = registered (get_basic_auth_credentials settings)

    -- `if (nodeEnv !== 'production') setupSwagger(…)`
    unfoldable pub docs : String → SwaggerSettings → String → Field String → Answer
    unfolding setup_swagger
    docs node_env settings path authorization =
        if not (node_env == "production")
        then setup_swagger settings path authorization
        else not_registered
