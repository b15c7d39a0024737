-- ===== src/Api/Admins.antt =====
-- api/routers/admins.py: the administrators, and the check that the last super-admin stays.
pub mod LastSuper
use telegram_cms.Prelude.{
  ℕ, suc, ◌+◌, Text, ℤ, Bool, true, false, not, ◌&&◌, Option, none, some, List, [], ◌∷◌, ◌++◌, keep,
  length, leb, any, modify, is_some, text_eq, or_else, if◌then◌else◌, ◌==◌, int_eq,
}
use telegram_cms.Enums.{Role, role_eq}
use telegram_cms.Models.{Admin}
use telegram_cms.World.{Db, http, integrity_error, Result, ok, err, get_admin}

-- A body of `PATCH`. The Telegram id is none where the field is not set, and may be set to null.
pub record AdminUpdate : Type 0 where
  pub password_hash : Option Text
  pub role : Option Role
  pub disabled : Option Bool
  pub tg_user_id : Option (Option ℤ)

pub record AdminCreate : Type 0 where
  pub username : Text
  pub password_hash : Text
  pub role : Role
  pub tg_user_id : Option ℤ

abbrev pub is_super : Admin → Bool
is_super a = role_eq a.role Role.super_admin

-- `Admin.role == super_admin, Admin.disabled_at IS NULL`
abbrev pub is_active_super : Admin → Bool
is_active_super a = is_super a && not (is_some a.disabled_at)

abbrev pub active_supers : List Admin → ℕ
active_supers admins = length (keep is_active_super admins)

abbrev pub put_admin : ℕ → Admin → List Admin → List Admin
put_admin i a = modify (λ (b : Admin). b.id == i) (λ b. a)

abbrev same_telegram : Option ℤ → Option ℤ → Bool
same_telegram none b = false
same_telegram (some x) none = false
same_telegram (some x) (some y) = int_eq x y

-- The unique columns: a user name or a linked Telegram account that is taken is a conflict.
unfoldable pub create_admin : AdminCreate → ℕ → Db → Result Db
create_admin payload now db =
    if any (λ (a : Admin). text_eq a.username payload.username) db.admins
    then err (http 409 "username already exists")
    else if any (λ (a : Admin). same_telegram a.tg_user_id payload.tg_user_id) db.admins
    then err (http 409 "username already exists")
    else ok (record db {
      admins =
          db.admins
          ++ (record {
            id = db.sequence;
            username = payload.username;
            password_hash = payload.password_hash;
            role = payload.role;
            tg_user_id = payload.tg_user_id;
            created_at = now;
            disabled_at = none;
          }
              ∷ []);
      sequence = suc db.sequence;
    })

abbrev pub with_password : Option Text → Admin → Admin
with_password none a = a
with_password (some h) a = record a { password_hash = h }

-- A change of the role: the query sees the rows of the table.
change_role : Option Role → ℕ → List Admin → Admin → Result Admin
change_role none i admins a = ok a
change_role (some role) i admins a =
    if role_eq role a.role
    then ok a
    else if is_super a && (not (role_eq role Role.super_admin) && leb (active_supers admins) 1)
    then err (http 400 "cannot demote the last super-admin")
    else ok (record a { role = role })

-- A change of the flag: the session writes the changes so far before the query, so it sees `a`.
change_disabled : Option Bool → ℕ → ℕ → List Admin → Admin → Result Admin
change_disabled none now i admins a = ok a
change_disabled (some false) now i admins a = ok (record a { disabled_at = none })
change_disabled (some true) now i admins a =
    if is_active_super a && leb (active_supers (put_admin i a admins)) 1
    then err (http 400 "cannot disable the last active super-admin")
    else ok (record a { disabled_at = some now })

-- The commit raises where the Telegram account is linked to another administrator.
set_telegram : Option (Option ℤ) → ℕ → List Admin → Admin → Result Admin
set_telegram none i admins a = ok a
set_telegram (some t) i admins a =
    if any (λ (b : Admin). not (b.id == i) && same_telegram b.tg_user_id t) admins
    then err integrity_error
    else ok (record a { tg_user_id = t })

and_then : Result Admin → (Admin → Result Admin) → Result Admin
and_then (err x) f = err x
and_then (ok a) f = f a

pub changed_admin : AdminUpdate → ℕ → ℕ → List Admin → Admin → Result Admin
unfolding change_role change_disabled set_telegram and_then
changed_admin payload now i admins a =
    and_then (change_role payload.role i admins (with_password payload.password_hash a)) λ b.
      and_then (change_disabled payload.disabled now i admins b)
        λ c. set_telegram payload.tg_user_id i admins c

unfoldable pub store_admin : ℕ → Db → Result Admin → Result Db
store_admin i db (err x) = err x
store_admin i db (ok a) = ok (record db { admins = put_admin i a db.admins })

-- An error before the commit leaves the database.
unfoldable pub update_admin : ℕ → AdminUpdate → ℕ → Db → Result Db
unfolding changed_admin store_admin
update_admin i payload now db = elim (get_admin i db) [
  | none ↦ err (http 404 "admin not found")
  | some a ↦ store_admin i db (changed_admin payload now i db.admins a)
]
