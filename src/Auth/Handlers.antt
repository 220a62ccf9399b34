-- ===== src/Auth/Handlers.antt =====
-- How the refresh and the logout handler of src/modules/auth/auth.controller.ts end.
use nestjs_team_tasks_api.Prelude.{String, true, [], ◌∷◌, ◌++◌, ◌≡◌, ◌≢◌, ap, List, inl, inr, arith}
use nestjs_team_tasks_api.Js.{value, truthy}
use nestjs_team_tasks_api.Exec.{Failure, ok, throw}
use nestjs_team_tasks_api.Exec.Cases.{saved_cases}
use nestjs_team_tasks_api.Platform.{Platform, World}
use nestjs_team_tasks_api.Platform.Laws.{RedisLaws}
use nestjs_team_tasks_api.Auth.Service.{Jwt, refresh, logout}
use nestjs_team_tasks_api.Auth.Laws.{logout-true}
use nestjs_team_tasks_api.Auth.Controller.{
  Cookie, CookieChange, set_cookie, clear_cookie, Exchange, OkResponseDto, refresh_handler,
  logout_handler,
}

-- the cookie that was set last
pub set_cookie-injective :
    (xs : List CookieChange) (a b : Cookie)
    → xs ++ set_cookie a ∷ [] ≡ xs ++ set_cookie b ∷ []
    → a ≡ b
set_cookie-injective [] a b h = ground (arith, h)
set_cookie-injective (x ∷ xs) a b h = set_cookie-injective xs a b (ground (arith, h))

module _ (p : Platform) (redis_laws : RedisLaws p.client) (jwt : Jwt) (token : String)
    (x : Exchange (World p.Db p.Redis)) where
  -- the refresh handler, for a cookie whose session is open
  pub refresh_handler-open :
      (access : String)
      → truthy token ≡ true
      → refresh p jwt token x.world ≡ (ok access, x.world)
      → refresh_handler p jwt (value token) x ≡ (ok (record { access_token = access }), x)
  unfolding refresh_handler
  refresh_handler-open access given e = ground (arith, given, e)

  pub refresh_handler-closed :
      truthy token ≡ true
      → ((access : String) → (refresh p jwt token x.world).0 ≢ ok access)
      → (f : Failure) × ((refresh_handler p jwt (value token) x).0 ≡ throw f)
  unfolding refresh_handler
  refresh_handler-closed given closed = elim (saved_cases (refresh p jwt token x.world)) [
    | inl (access, w, e) ↦ absurd (closed access (ap (λ r. r.0) e))
    | inr (f, w, e) ↦ (f, ground (arith, given, e))
  ]

  -- the logout handler, once it has answered
  pub logout_handler-answered :
      (done : OkResponseDto)
      → truthy token ≡ true
      → (logout_handler p jwt (value token) x).0 ≡ ok done
      → ((logout p jwt token x.world).0 ≡ ok true)
        × ((logout_handler p jwt (value token) x).1 ≡ record {
          world = (logout p jwt token x.world).1;
          cookies = x.cookies ++ clear_cookie "refresh_token" "/auth" ∷ [];
        })
  unfolding logout_handler
  logout_handler-answered done given h = elim (saved_cases (logout p jwt token x.world)) [
    | inl (clear, w, e) ↦
        let yes_clear = logout-true p redis_laws jwt token x.world clear (ap (λ r. r.0) e) in
        (ground (arith, e, yes_clear), ground (arith, given, e, yes_clear))
    | inr (f, w, e) ↦ absurd (ground (arith, given, e, h))
  ]
