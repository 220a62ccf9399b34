-- ===== src/Tests/Auth.antt =====
-- A JWT service for the tests, and a session that it refreshes.
use nestjs_team_tasks_api.Prelude.{
  ℕ, ◌+◌, String, true, leb, ltb, none, eq_iff, arith, ◌≢◌, ◌≡◌, refl, ◌&&◌, ◌==◌, string_eq,
  if◌then◌else◌,
}
use nestjs_team_tasks_api.Exec.{Failure, ok, throw, other_error}
use nestjs_team_tasks_api.Js.{truthy}
use nestjs_team_tasks_api.Entities.{AccessTokenPayload}
use nestjs_team_tasks_api.Auth.Tokens.{JwtLaws}
use nestjs_team_tasks_api.Platform.{World}
use nestjs_team_tasks_api.Auth.Service.{
  Jwt, JwtService, at, JwtConfig, refresh_session_key, verify_refresh_or_null, refresh_session,
  refresh,
}
use nestjs_team_tasks_api.Memory.Repository.{repository}
use nestjs_team_tasks_api.Memory.World.{platform, Db, Redis, put_key}
use nestjs_team_tasks_api.Tests.Data.{db}

abbrev pub jwt_config : JwtConfig
jwt_config = record {
  access_secret = "a";
  access_ttl_sec = 900;
  refresh_secret = "r";
  refresh_ttl_sec = 604800;
}

-- The only refresh token is that of ann's session s1, which ends at 604900. An access token is the user's
-- id, or "renewed" where it is signed after 100.
abbrev pub jwt_service : JwtService
jwt_service = record {
  verify = λ now token secret.
      if ltb now 604900
      then ok (record { sub = "ann"; tid = "s1" })
      else throw (other_error "jwt expired");
  sign = λ now payload secret ttl. ok (if leb now 100 then payload.sub else "renewed");
  sign_refresh = λ now payload secret ttl.
      if payload.sub == "ann" && payload.tid == "s1" && leb (now + ttl) 604900
      then ok "token"
      else throw (other_error "");
}

abbrev pub jwt : Jwt
jwt = record { config = ok jwt_config; service = jwt_service; now = 100 }

same_token : (token : String) → token ≡ "token" → truthy token ≡ true
same_token token e = rw e refl

pub jwt_service-JwtLaws : JwtLaws jwt_service
jwt_service-JwtLaws = record {
  sign_verifies = λ payload secret token ttl now later h after before.
      ground (arith, h, after, before, eq_iff payload.sub "ann", eq_iff payload.tid "s1");
  sign_text = λ payload secret token ttl now h.
      same_token token (ground (arith, h, eq_iff payload.sub "ann", eq_iff payload.tid "s1"));
  verify_earlier = λ token secret payload now later after h. ground (arith, after, h);
}

pub jwt_signs :
    (payload : AccessTokenPayload) (secret : String) (ttl : ℕ) (f : Failure)
    → jwt_service.sign 200 payload secret ttl ≢ throw f
jwt_signs payload secret ttl f h = ground (arith, h)

abbrev logged_in : World Db Redis
logged_in = record { db = db; redis = put_key (refresh_session_key "ann" "s1") "1" (λ k. none) }

open_session : (refresh platform (at 200 jwt) "token" logged_in).0 ≡ ok "renewed"
unfolding refresh refresh_session verify_refresh_or_null refresh_session_key repository
open_session = refl
