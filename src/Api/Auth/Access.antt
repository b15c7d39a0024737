-- ===== src/Api/Auth/Access.antt =====
-- Which tokens let their bearer in, and as whom.
use telegram_cms.Prelude.{
  List, Bool, ◌⊎◌, inl, inr, find, ℕ, ◌+◌, ◌*◌, ◌<◌, Text, true, false, not, ◌&&◌, Option, none,
  some, [], arith, ◌≡◌, refl, find_sound, is_some, truthy, opt_or, ◌==◌, is_empty, text_or, ◌∷◌,
}
use telegram_cms.Enums.{Role, role_at_least}
use telegram_cms.Models.{Admin, days}
use telegram_cms.World.{Db, World, http, ok, err}
use telegram_cms.Env.{Env}
use telegram_cms.Api.Auth.{
  Crypto, TokenClaims, access, refresh, is_access, create_access_token, create_refresh_token,
  active_admin, get_claims, get_current_admin, require_role, tokens, refresh_cookie, refresh_tokens,
}

-- What is documented of `jwt.encode` and `jwt.decode`: a token is not empty, and it decodes to its claims
-- before it expires.
pub record IsSigning (k : Crypto) : Type 0 where
  pub solid : (c : TokenClaims) → truthy (some (k.encode c)) ≡ true
  pub valid : (now : ℕ) (c : TokenClaims) → now < c.exp → k.decode now (k.encode c) ≡ some c

opt_or-truthy : (t u : Text) → truthy (some t) ≡ true → text_or t u ≡ t
opt_or-truthy [] u h = ground (arith, h)
opt_or-truthy (c ∷ t) u h = refl

not_empty : (t : Text) → truthy (some t) ≡ true → is_empty t ≡ false
not_empty [] h = ground (arith, h)
not_empty (c ∷ t) h = refl

-- The row is in the table.
abbrev pub IsIn : Admin → List Admin → Type 0
IsIn a [] = ⊥
IsIn a (b ∷ bs) = (b ≡ a) ⊎ IsIn a bs

find-IsIn : (p : Admin → Bool) (as' : List Admin) (a : Admin) → find p as' ≡ some a → IsIn a as'
find-IsIn p [] a h = absurd (ground (arith, h))
find-IsIn p (b ∷ bs) a h = go (p b) refl (find-IsIn p bs a)
  where
    go : (t : Bool) → p b ≡ t → (find p bs ≡ some a → IsIn a bs) → (b ≡ a) ⊎ IsIn a bs
    go true yes' later = inl (ground (arith, h, yes'))
    go false no' later = inr (later (ground (arith, h, no')))

module _ (k : Crypto) where
  active_admin_sound :
      (i : ℕ) (db : Db) (a : Admin)
      → active_admin k i db ≡ some a
      → (a.id ≡ i) × (a.disabled_at ≡ none) × IsIn a db.admins
  active_admin_sound i db a h =
      let s =
        find_sound (λ (b : Admin). (b.id == i) && not (is_some b.disabled_at)) db.admins a h in
      (ground (arith, s), ground (arith, s), find-IsIn _ db.admins a h)

  -- Who passes `require_role` bears a token that decodes to access claims for an administrator, and is that
  -- administrator's row as it stands in the database, which is not disabled and has at least the required role.
  pub require_role_sound :
      (required : Role) (token : Option Text) (w : World) (a : Admin)
      → require_role k required token w ≡ ok a
      → (c : TokenClaims) × (k.decode w.now (opt_or token []) ≡ some c)
        × (is_access c.token_type ≡ true)
        × (a.id ≡ c.admin_id)
        × IsIn a w.db.admins
        × (a.disabled_at ≡ none)
        × (role_at_least a.role required ≡ true)
  unfolding require_role get_claims
  require_role_sound required token w a h = go (get_claims k w.now token) refl
    where
      go :
          (o : Option TokenClaims)
          → get_claims k w.now token ≡ o
          → (c : TokenClaims) × (k.decode w.now (opt_or token []) ≡ some c)
            × (is_access c.token_type ≡ true)
            × (a.id ≡ c.admin_id)
            × IsIn a w.db.admins
            × (a.disabled_at ≡ none)
            × (role_at_least a.role required ≡ true)
      go none e = absurd (ground (arith, e, h))
      go (some c) e =
          let sound = active_admin_sound c.admin_id w.db a (ground (arith, e, h)) in
          (c, ground (arith, e), ground (arith, e), sound.0, sound.2, sound.1, ground (arith, e, h))

  module _ (signs : IsSigning k) (e : Env) (a : Admin) (issued : ℕ) (w : World) where
    -- An access token that has not expired lets in the administrator that it was made for, as the row
    -- now stands, while that row is not disabled.
    pub get_current_admin-access :
        (b : Admin)
        → w.now < issued + e.access_token_ttl_minutes * 60000
        → active_admin k a.id w.db ≡ some b
        → get_current_admin k (some (create_access_token k e issued a)) w ≡ ok b
    unfolding get_current_admin create_access_token
    get_current_admin-access b fresh found =
        let c : TokenClaims = record {
          sub = a.username;
          admin_id = a.id;
          role = a.role;
          token_type = access;
          exp = issued + e.access_token_ttl_minutes * 60000;
        } in
        ground (arith, found, signs.solid c, signs.valid w.now c fresh)

    -- A refresh token that has not expired is not taken for an access token.
    pub get_current_admin-refresh :
        w.now < issued + days e.refresh_token_ttl_days
        → get_current_admin k (some (create_refresh_token k e issued a)) w
          ≡ err (http 401 "Could not validate credentials")
    unfolding get_current_admin create_refresh_token
    get_current_admin-refresh fresh =
        let c : TokenClaims = record {
          sub = a.username;
          admin_id = a.id;
          role = a.role;
          token_type = refresh;
          exp = issued + days e.refresh_token_ttl_days;
        } in
        ground (arith, signs.solid c, signs.valid w.now c fresh)

    -- A refresh token that has not expired, in the cookie, is answered with new tokens for the
    -- administrator's row as it stands, while that is not disabled, and the cookie is set anew.
    pub refresh_tokens-refresh :
        (b : Admin) (body : Option Text)
        → w.now < issued + days e.refresh_token_ttl_days
        → active_admin k a.id w.db ≡ some b
        → refresh_tokens k e (some (create_refresh_token k e issued a)) body w
          ≡ (ok (tokens k e w.now b, refresh_cookie k e (create_refresh_token k e w.now b)), w)
    unfolding refresh_tokens create_refresh_token
    refresh_tokens-refresh b body fresh found =
        let c : TokenClaims = record {
          sub = a.username;
          admin_id = a.id;
          role = a.role;
          token_type = refresh;
          exp = issued + days e.refresh_token_ttl_days;
        } in
        rw
          (
            opt_or-truthy (k.encode c) (opt_or body []) (signs.solid c),
            not_empty (k.encode c) (signs.solid c),
          )
          (ground (arith, signs.valid w.now c fresh, found))
