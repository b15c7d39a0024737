-- ===== src/Api/Auth/Session.antt =====
-- What a logout ends.
use telegram_cms.Prelude.{ℕ, ◌+◌, ◌<◌, Text, Option, none, some, ◌≡◌, refl}
use telegram_cms.Models.{Admin, days}
use telegram_cms.World.{World, http, ok, err}
use telegram_cms.Env.{Env}
use telegram_cms.Api.Auth.{
  Crypto, create_refresh_token, active_admin, tokens, refresh_cookie, refresh_tokens, logout,
}
use telegram_cms.Api.Auth.Access.{IsSigning, refresh_tokens-refresh}

-- After a logout the browser gets no new tokens without a token in the body. The tokens are not revoked: whoever kept
-- the refresh token is answered with new ones before it expires, while the administrator is active.
pub logout-refresh_tokens :
    (k : Crypto) (signs : IsSigning k) (e : Env) (a b : Admin) (issued : ℕ) (w : World)
    (jar : Option Text)
    → w.now < issued + days e.refresh_token_ttl_days
    → active_admin k a.id w.db ≡ some b
    → (refresh_tokens k e (logout jar) none w ≡ (err (http 401 "missing refresh token"), w))
      × (refresh_tokens k e (some (create_refresh_token k e issued a)) none w
          ≡ (ok (tokens k e w.now b, refresh_cookie k e (create_refresh_token k e w.now b)), w))
unfolding refresh_tokens logout
logout-refresh_tokens k signs e a b issued w jar fresh found =
    (refl, refresh_tokens-refresh k signs e a issued w b none fresh found)
