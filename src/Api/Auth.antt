-- ===== src/Api/Auth.antt =====
-- shared/security.py, api/deps.py and api/auth.py: tokens, the current administrator, roles, login and
-- refresh. The signature of a token and the hash of a password are the parameter `Crypto`.
pub mod Access
pub mod Session
use telegram_cms.Prelude.{
  ℕ, ◌+◌, ◌*◌, ◌<◌, Text, codes, Bool, true, false, not, ◌&&◌, Option, none, some, List, [],
  text_eq, truthy, opt_or, find, modify, is_some, is_empty, or_else, if◌then◌else◌, ◌==◌, ◌≡◌,
}
use telegram_cms.Enums.{Role, role_at_least}
use telegram_cms.Models.{Admin, days, is_production}
use telegram_cms.World.{
  Db, World, http, Result, ok, err, Exec, ◌>>=◌, ◌>>◌, pure, raise, commit, get_admin,
}
use telegram_cms.Env.{Env}

pub data TokenType : Type 0 where
  access refresh : TokenType

abbrev pub is_access : TokenType → Bool
is_access access = true
is_access refresh = false

pub record TokenClaims : Type 0 where
  pub sub : Text
  pub admin_id : ℕ
  pub role : Role
  pub token_type : TokenType
  pub exp : ℕ

-- `jwt.encode` and `jwt.decode` under the secret, the latter at a time and none where it raises; and
-- argon2's `verify` with its two errors as false, `hash` and `check_needs_rehash`.
pub record Crypto : Type 0 where
  pub encode : TokenClaims → Text
  pub decode : ℕ → Text → Option TokenClaims
  pub verify : Text → Text → Bool
  pub hash : Text → Text
  pub needs_rehash : Text → Bool

pub record TokenOut : Type 0 where
  pub access_token : Text
  pub refresh_token : Text

pub record Cookie : Type 0 where
  pub value : Text
  pub secure : Bool
  pub max_age : ℕ

module _ (k : Crypto) where
  unfoldable pub create_access_token : Env → ℕ → Admin → Text
  create_access_token e now a = k.encode (record {
    sub = a.username;
    admin_id = a.id;
    role = a.role;
    token_type = access;
    exp = now + e.access_token_ttl_minutes * 60000;
  })

  unfoldable pub create_refresh_token : Env → ℕ → Admin → Text
  create_refresh_token e now a = k.encode (record {
    sub = a.username;
    admin_id = a.id;
    role = a.role;
    token_type = refresh;
    exp = now + days e.refresh_token_ttl_days;
  })

  -- `Admin.id == id, Admin.disabled_at IS NULL`
  abbrev pub active_admin : ℕ → Db → Option Admin
  active_admin i db = find (λ (a : Admin). (a.id == i) && not (is_some a.disabled_at)) db.admins

  unfoldable pub get_claims : ℕ → Option Text → Option TokenClaims
  get_claims now token =
      if truthy token
      then elim (k.decode now (opt_or token [])) [
        | none ↦ none
        | some c ↦ if is_access c.token_type then some c else none
      ]
      else none

  unfoldable pub get_current_admin : Option Text → World → Result Admin
  unfolding get_claims
  get_current_admin token w = elim (get_claims w.now token) [
    | none ↦ err (http 401 "Could not validate credentials")
    | some c ↦ elim (active_admin c.admin_id w.db) [
      | none ↦ err (http 401 "Could not validate credentials")
      | some a ↦ ok a
    ]
  ]

  check_role : Role → Result Admin → Result Admin
  check_role required (err x) = err x
  check_role required (ok a) =
      if role_at_least a.role required then ok a else err (http 403 "insufficient role")

  unfoldable pub require_role : Role → Option Text → World → Result Admin
  unfolding get_current_admin check_role
  require_role required token w = check_role required (get_current_admin token w)

  unfoldable pub tokens : Env → ℕ → Admin → TokenOut
  unfolding create_access_token create_refresh_token
  tokens e now a = record {
    access_token = create_access_token e now a;
    refresh_token = create_refresh_token e now a;
  }

  abbrev pub refresh_cookie : Env → Text → Cookie
  refresh_cookie e t = record {
    value = t;
    secure = is_production e.settings;
    max_age = e.refresh_token_ttl_days * 86400;
  }

  abbrev granted : Env → Admin → Exec (TokenOut × Cookie)
  granted e a w = let t = tokens e w.now a in (ok (t, refresh_cookie e t.refresh_token), w)

  abbrev by_username : Text → Admin → Bool
  by_username name a = text_eq a.username name && not (is_some a.disabled_at)

  abbrev rehash : Text → Admin → Db → Db
  rehash password a db = record db {
    admins =
        modify (λ (b : Admin). b.id == a.id) (λ b. record b { password_hash = k.hash password })
          db.admins;
  }

  -- `_authenticate`
  unfoldable pub authenticate : Text → Text → Exec Admin
  authenticate name password w = elim (find (by_username name) w.db.admins) [
    | none ↦ (err (http 401 "Incorrect username or password"), w)
    | some a ↦
        if k.verify password a.password_hash
        then (if k.needs_rehash a.password_hash
            then (ok a, record w { db = rehash password a w.db })
            else (ok a, w))
        else (err (http 401 "Incorrect username or password"), w)
  ]

  unfoldable pub login : Env → Text → Text → Exec (TokenOut × Cookie)
  unfolding authenticate tokens
  login e name password = do a ← authenticate name password; granted e a

  read_refresh : ℕ → Text → Option TokenClaims
  read_refresh now token = elim (k.decode now token) [
    | none ↦ none
    | some c ↦ if is_access c.token_type then none else some c
  ]

  refresh_for : Env → Option TokenClaims → Exec (TokenOut × Cookie)
  refresh_for e none w = (err (http 401 "invalid refresh token"), w)
  refresh_for e (some c) w = elim (active_admin c.admin_id w.db) [
    | none ↦ (err (http 401 "admin not found"), w)
    | some a ↦ granted e a w
  ]

  -- The cookie comes before the body.
  unfoldable pub refresh_tokens : Env → Option Text → Option Text → Exec (TokenOut × Cookie)
  unfolding read_refresh refresh_for tokens
  refresh_tokens e cookie body w =
      let token = opt_or cookie (opt_or body []) in
      if is_empty token
      then (err (http 401 "missing refresh token"), w)
      else refresh_for e (read_refresh w.now token) w

  -- The form's fields are those of the JSON.
  unfoldable pub login_form : Env → Text → Text → Exec (TokenOut × Cookie)
  unfolding login
  login_form e name password = login e name password

  -- `/me`
  unfoldable pub read_me : Option Text → World → Result Admin
  unfolding get_current_admin
  read_me token w = get_current_admin token w

-- The refresh cookie that a browser holds, and what an answer makes of it: a login and a refresh set it, and
-- the logout deletes it.
unfoldable pub set_refresh_cookie : Cookie → Option Text → Option Text
set_refresh_cookie c jar = some c.value

unfoldable pub logout : Option Text → Option Text
logout jar = none
