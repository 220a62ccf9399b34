-- ===== src/Swagger/Gate.antt =====
-- Who sees the documentation.
use Prim.Native.String
use nestjs_team_tasks_api.Prelude.{
  String, true, false, Option, none, some, List, [], ◌∷◌, ◌≡◌, ◌≢◌, refl, sym, ap, ◌∙◌, ◌⊎◌, ◌↔◌,
  Bool, inl, inr, arith, eq_iff, Bool-cases, string_eq,
}
use nestjs_team_tasks_api.Exec.Cases.{option_cases}
use nestjs_team_tasks_api.Js.{Field, value, truthy}
use nestjs_team_tasks_api.Js.Case.{to_lower}
use nestjs_team_tasks_api.Js.Split.{
  split, cut, Without, split-Without, split-append, one-append, cut-append,
}
use nestjs_team_tasks_api.Swagger.Setup.{
  SwaggerSettings, Credentials, next, get_basic_auth_credentials, or_nullish,
  parse_basic_auth_header, same_credentials, setup_swagger, docs, middleware, registered,
}
use nestjs_team_tasks_api.Swagger.Header.{Usable, both_given-some, header_colon}

module _ (decode_base64 : String → String) where
  admitted :
      (creds : Option Credentials) (basic_auth : Credentials)
      → same_credentials decode_base64 creds basic_auth ≡ true
      → creds ≡ some basic_auth
  admitted none b h = ground (arith, h)
  admitted (some c) b h = ground (arith, h, eq_iff c.user b.user, eq_iff c.password b.password)

  module _ (mounted : List String → String → Bool) where
    -- why a request goes on to the documentation
    abbrev pub Passes : String → SwaggerSettings → String → Field String → Type 0
    Passes node_env settings path authorization =
        (node_env ≢ "production")
        × (settings.enabled ≡ true)
        × (c : Credentials) × (get_basic_auth_credentials settings ≡ some c)
        × ((mounted ("/docs" ∷ "/docs-json" ∷ []) path ≡ false)
            ⊎ (Usable c × (parse_basic_auth_header decode_base64 authorization ≡ some c)))

    gate_open :
        (path : String) (authorization : Field String) (c : Credentials)
        → registered decode_base64 mounted (some c) path authorization ≡ next
        → (mounted ("/docs" ∷ "/docs-json" ∷ []) path ≡ false)
          ⊎ (parse_basic_auth_header decode_base64 authorization ≡ some c)
    unfolding middleware
    gate_open path authorization c h =
        elim (Bool-cases (mounted ("/docs" ∷ "/docs-json" ∷ []) path)) [
          | inr e ↦ inl e
          | inl e ↦
              let let_in : same_credentials decode_base64
                    (parse_basic_auth_header decode_base64 authorization) c
                  ≡ true =
                ground (arith, h, e) in
              inr (admitted (parse_basic_auth_header decode_base64 authorization) c let_in)
        ]

    given-Usable :
        (settings : SwaggerSettings) (authorization : Field String) (c : Credentials)
        → get_basic_auth_credentials settings ≡ some c
        → parse_basic_auth_header decode_base64 authorization ≡ some c
        → Usable c
    unfolding get_basic_auth_credentials
    given-Usable settings authorization c e read =
        let enabled : settings.enabled ≡ true = ground (arith, e) in
        let given =
          both_given-some (or_nullish settings.user settings.nested_user)
            (or_nullish settings.password settings.nested_password) c
            (ground (arith, e, enabled)) in
        record {
          user_given = given.0;
          password_given = given.1;
          no_colon = header_colon decode_base64 authorization c read;
        }

    passes :
        (node_env : String) (settings : SwaggerSettings) (path : String)
        (authorization : Field String)
        → docs decode_base64 mounted node_env settings path authorization ≡ next
        → Passes node_env settings path authorization
    unfolding docs setup_swagger
    passes node_env settings path authorization h =
        elim (option_cases (get_basic_auth_credentials settings)) [
          | inr e ↦ absurd (ground (arith, h, e))
          | inl (c, e) ↦
              let enabled : settings.enabled ≡ true =
                unfold get_basic_auth_credentials in (ground (arith, e)) in
              let outside : node_env ≢ "production" =
                λ q. ground (arith, h, eq_iff node_env "production", q) in
              let at : docs decode_base64 mounted node_env settings path authorization
                  ≡ registered decode_base64 mounted (some c) path authorization =
                ground (arith, e, outside, eq_iff node_env "production") in
              (
                outside,
                enabled,
                c,
                e,
                elim (gate_open path authorization c (sym at ∙ h)) [
                  | inl off ↦ inl off
                  | inr read ↦ inr (given-Usable settings authorization c e read, read)
                ],
              )
        ]

    let_through :
        (path : String) (authorization : Field String) (c : Credentials)
        → (mounted ("/docs" ∷ "/docs-json" ∷ []) path ≡ false)
          ⊎ (parse_basic_auth_header decode_base64 authorization ≡ some c)
        → registered decode_base64 mounted (some c) path authorization ≡ next
    unfolding middleware
    let_through path authorization c (inl off) = ground (arith, off)
    let_through path authorization c (inr read) =
        let same : same_credentials decode_base64 (some c) c ≡ true =
          ground (arith, eq_iff c.user c.user, eq_iff c.password c.password) in
        ground (arith, read, same)

    opens_gate :
        (node_env : String) (settings : SwaggerSettings) (path : String)
        (authorization : Field String) (c : Credentials)
        → node_env ≢ "production"
        → get_basic_auth_credentials settings ≡ some c
        → (mounted ("/docs" ∷ "/docs-json" ∷ []) path ≡ false)
          ⊎ (parse_basic_auth_header decode_base64 authorization ≡ some c)
        → docs decode_base64 mounted node_env settings path authorization ≡ next
    unfolding docs setup_swagger
    opens_gate node_env settings path authorization c outside e why =
        let through = let_through path authorization c why in
        ground (arith, e, outside, eq_iff node_env "production", through)

    -- A request goes on to the routes behind the gate exactly if the service is not in production, Swagger is
    -- enabled, a user and a password are configured, and one of two holds. Express takes its path for none of
    -- `/docs` and `/docs-json`: the gate is not asked. Or the `authorization` header holds exactly the
    -- configured user and password; both are then not empty, and the user has no colon.
    pub docs-next :
        (node_env : String) (settings : SwaggerSettings) (path : String)
        (authorization : Field String)
        → (docs decode_base64 mounted node_env settings path authorization ≡ next)
          ↔ Passes node_env settings path authorization
    docs-next node_env settings path authorization = (
      passes node_env settings path authorization,
      λ (outside, _, c, e, why).
          opens_gate node_env settings path authorization c outside e
            (elim why [ inl off ↦ inl off | inr (_, read) ↦ inr read ]),
    )

    -- Outside production, a client with the configured credentials sees the documentation, whatever its
    -- path, if Swagger is enabled and the credentials are usable: it sends the scheme "basic", in any case,
    -- a space and a token that decodes to the user, a colon and the password.
    pub docs-header :
        (node_env path scheme token : String) (settings : SwaggerSettings) (c : Credentials)
        → node_env ≢ "production"
        → get_basic_auth_credentials settings ≡ some c
        → Usable c
        → Without b' ' scheme
        → Without b' ' token
        → to_lower scheme ≡ "basic"
        → truthy token ≡ true
        → decode_base64 token ≡ String.◌++◌ c.user (String.◌++◌ ":" c.password)
        → docs decode_base64 mounted node_env settings path
            (value (String.◌++◌ scheme (String.◌++◌ " " token)))
          ≡ next
    unfolding parse_basic_auth_header
    docs-header node_env path scheme token settings c env e usable s t basic given decoded =
        let parts : split b' ' (String.◌++◌ scheme (String.◌++◌ " " token)) ≡ scheme ∷ token ∷ [] =
          ap (λ r. split b' ' (String.◌++◌ scheme r)) (one-append " " token)
          ∙ split-append " " scheme token s
          ∙ ap (◌∷◌ scheme) (split-Without b' ' token t) in
        let cuts : cut b':' (decode_base64 token) ≡ some (c.user, c.password) =
          ap (cut b':') (decoded ∙ ap (String.◌++◌ c.user) (one-append ":" c.password))
          ∙ cut-append ":" c.user c.password usable.no_colon in
        let read : parse_basic_auth_header decode_base64
              (value (String.◌++◌ scheme (String.◌++◌ " " token)))
            ≡ some c =
          rw (parts, basic, given, cuts) refl in
        opens_gate node_env settings path (value (String.◌++◌ scheme (String.◌++◌ " " token))) c env
          e (inr read)
