-- ===== src/Auth/Tokens.antt =====
-- The documented behaviour of jsonwebtoken, as hypotheses of theorems on several calls.
use nestjs_team_tasks_api.Prelude.{ℕ, ◌+◌, ◌≤◌, ◌<◌, String, true, some, ◌≡◌, inl, inr, arith}
use nestjs_team_tasks_api.Js.{truthy}
use nestjs_team_tasks_api.Entities.{RefreshTokenPayload}
use nestjs_team_tasks_api.Exec.{ok}
use nestjs_team_tasks_api.Exec.Cases.{result_cases}
use nestjs_team_tasks_api.Auth.Service.{JwtService, Jwt, at, verify_refresh_or_null}

pub record JwtLaws (service : JwtService) : Type 0 where
  -- a token verifies from the time at which it is signed until its lifetime ends
  pub sign_verifies :
      (payload : RefreshTokenPayload) (secret token : String) (ttl now later : ℕ)
      → service.sign_refresh now payload secret ttl ≡ ok token
      → now ≤ later
      → later < now + ttl
      → service.verify later token secret ≡ ok payload
  pub sign_text :
      (payload : RefreshTokenPayload) (secret token : String) (ttl now : ℕ)
      → service.sign_refresh now payload secret ttl ≡ ok token
      → truthy token ≡ true
  -- a token that verifies has not ended before
  pub verify_earlier :
      (token secret : String) (payload : RefreshTokenPayload) (now later : ℕ)
      → now ≤ later
      → service.verify later token secret ≡ ok payload
      → service.verify now token secret ≡ ok payload

pub verified_before :
    (jwt : Jwt) (laws : JwtLaws jwt.service) (later : ℕ) (token secret : String)
    (payload : RefreshTokenPayload)
    → jwt.now ≤ later
    → verify_refresh_or_null (at later jwt) token secret ≡ some payload
    → verify_refresh_or_null jwt token secret ≡ some payload
unfolding verify_refresh_or_null
verified_before jwt laws later token secret payload after h =
    elim (result_cases (jwt.service.verify later token secret)) [
      | inl (found, v) ↦
          let before = laws.verify_earlier token secret found jwt.now later after v in
          ground (arith, h, v, before)
      | inr (f, v) ↦ absurd (ground (arith, h, v))
    ]
