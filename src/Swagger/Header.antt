-- ===== src/Swagger/Header.antt =====
-- What the `authorization` header of src/swagger/setup-swagger.ts can hold.
use nestjs_team_tasks_api.Prelude.{
  String, true, ◌&&◌, Option, none, some, List, [], ◌∷◌, ◌≡◌, refl, ap, inl, inr, arith, Bool-cases,
  ◌==◌, string_eq,
}
use nestjs_team_tasks_api.Js.{Field, absent, undefined, null, value, truthy}
use nestjs_team_tasks_api.Js.Case.{to_lower}
use nestjs_team_tasks_api.Js.Split.{split, cut, Without, cut-Without}
use nestjs_team_tasks_api.Swagger.Setup.{
  Credentials, both_given, credentials_of, credentials_of_parts, parse_basic_auth_header,
}

-- neither text is empty, and the user has no colon
pub record Usable (c : Credentials) : Type 0 where
  pub user_given : truthy c.user ≡ true
  pub password_given : truthy c.password ≡ true
  pub no_colon : Without b':' c.user

pub both_given-some :
    (user password : Field String) (c : Credentials)
    → both_given user password ≡ some c
    → (truthy c.user ≡ true) × (truthy c.password ≡ true)
both_given-some (value user) (value password) c h = ground (arith, h)
both_given-some (value user) _ c h = ground (arith, h)
both_given-some _ password c h = ground (arith, h)

module _ (decode_base64 : String → String) where
  cut_colon :
      (o : Option (String × String)) (c : Credentials)
      → ((a b : String) → o ≡ some (a, b) → Without b':' a)
      → credentials_of o ≡ some c
      → Without b':' c.user
  cut_colon none c h e = ground (arith, e)
  cut_colon (some (a, b)) c h e =
      let same : a ≡ c.user = ap (λ o. elim o [ none ↦ a | some r ↦ r.user ]) e in
      rw (← same) (h a b refl)

  parts_colon :
      (parts : List String) (c : Credentials)
      → credentials_of_parts decode_base64 parts ≡ some c
      → Without b':' c.user
  parts_colon [] c h = ground (arith, h)
  parts_colon (scheme ∷ []) c h = ground (arith, h)
  parts_colon (scheme ∷ token ∷ rest) c h =
      elim (Bool-cases (to_lower scheme == "basic" && truthy token)) [
        | inl e ↦
            cut_colon (cut b':' (decode_base64 token)) c
              (λ a b. cut-Without b':' (decode_base64 token) a b) (rw e at h)
        | inr e ↦ ground (arith, rw e at h)
      ]

  pub header_colon :
      (authorization : Field String) (c : Credentials)
      → parse_basic_auth_header decode_base64 authorization ≡ some c
      → Without b':' c.user
  unfolding parse_basic_auth_header
  header_colon (value header) c h = parts_colon (split b' ' header) c h
  header_colon absent c h = ground (arith, h)
  header_colon undefined c h = ground (arith, h)
  header_colon null c h = ground (arith, h)
