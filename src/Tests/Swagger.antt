-- ===== src/Tests/Swagger.antt =====
-- The theorems on the documentation's gate at concrete inputs.
use Prim.Native.String.{◌++◌}
use nestjs_team_tasks_api.Prelude.{
  String, Bool, List, has, string_eq, ◌↔◌, true, ◌≡◌, refl, arith, eq_iff,
}
use nestjs_team_tasks_api.Js.{Field, absent, value}
use nestjs_team_tasks_api.Js.Case.{to_lower}
use nestjs_team_tasks_api.Js.Split.{cut}
use nestjs_team_tasks_api.Swagger.Setup.{
  SwaggerSettings, Credentials, next, unauthorized_401, get_basic_auth_credentials, docs,
}
use nestjs_team_tasks_api.Swagger.Header.{Usable}
use nestjs_team_tasks_api.Swagger.Gate.{Passes, docs-next, docs-header}

abbrev settings : SwaggerSettings
settings = record {
  enabled = true;
  user = value "admin";
  nested_user = absent;
  password = value "p:w";
  nested_password = absent;
}

abbrev admin : Credentials
admin = record { user = "admin"; password = "p:w" }

-- every token decodes to the credentials
abbrev decode : String → String
decode token = "admin:p:w"

admin-Usable : Usable admin
admin-Usable = record { user_given = refl; password_given = refl; no_colon = ground arith }

abbrev header : Field String
header = value ("Basic" ++ (" " ++ "YWRtaW46cDp3"))

-- whether a path is one of those that are mounted
abbrev mounted : List String → String → Bool
mounted paths path = has paths path

header_run : docs decode mounted "development" settings "/docs" header ≡ next
unfolding docs to_lower cut
header_run = refl

refused_run : docs decode mounted "development" settings "/docs" absent ≡ unauthorized_401
unfolding docs
refused_run = refl

-- the documentation in YAML, which `SwaggerModule.setup` serves too
yaml_run : docs decode mounted "development" settings "/docs-yaml" absent ≡ next
unfolding docs
yaml_run = refl

docs-header_example : docs decode mounted "development" settings "/docs" header ≡ next
unfolding get_basic_auth_credentials to_lower
docs-header_example =
    docs-header decode mounted "development" "/docs" "Basic" "YWRtaW46cDp3" settings admin
      (λ e. ground (arith, eq_iff "development" "production", e)) refl admin-Usable (ground arith)
      (ground arith) refl refl refl

docs-next_example :
    (docs decode mounted "development" settings "/docs" header ≡ next)
    ↔ Passes decode mounted "development" settings "/docs" header
docs-next_example = docs-next decode mounted "development" settings "/docs" header
