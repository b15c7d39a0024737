-- ===== src/Api/Admins/LastSuper.antt =====
-- The back-office cannot lose its last active super-admin.
use telegram_cms.Prelude.{
  ℕ, ◌+◌, ◌<◌, Text, Bool, true, false, Option, none, some, List, [], ◌∷◌, arith, ◌≡◌, refl, any,
  find, if◌then◌else◌, ◌==◌, Bool-cases, inl, inr, ◌⊎◌, ==→eq,
}
use telegram_cms.Enums.{Role}
use telegram_cms.Models.{Admin}
use telegram_cms.World.{Db, Result, ok, err, get_admin}
use telegram_cms.Api.Admins.{
  AdminUpdate, with_password, update_admin, changed_admin, change_role, change_disabled,
  set_telegram, and_then, store_admin, put_admin, active_supers, is_active_super,
}

-- No two administrators have the same id.
abbrev pub HasUniqueIds : List Admin → Type 0
HasUniqueIds [] = Unit
HasUniqueIds (a ∷ rows) = (any (λ (b : Admin). b.id == a.id) rows ≡ false) × HasUniqueIds rows

put_admin-absent :
    (i : ℕ) (a : Admin) (rows : List Admin)
    → any (λ (b : Admin). b.id == i) rows ≡ false
    → put_admin i a rows ≡ rows
put_admin-absent i a [] h = refl
put_admin-absent i a (b ∷ rows) h = ground (arith, h, put_admin-absent i a rows)

abbrev weight : Admin → ℕ
weight a = if is_active_super a then 1 else 0

-- One row is replaced.
active_supers-put_admin :
    (i : ℕ) (a b : Admin) (rows : List Admin)
    → HasUniqueIds rows
    → find (λ (c : Admin). c.id == i) rows ≡ some a
    → active_supers (put_admin i b rows) + weight a ≡ active_supers rows + weight b
active_supers-put_admin i a b [] u h = ground (arith, h)
active_supers-put_admin i a b (c ∷ rows) u h = elim (Bool-cases (c.id == i)) [
  | inl here ↦ ground (arith, here, h, u, put_admin-absent i b rows, ==→eq c.id i here)
  | inr there ↦ ground (arith, there, h, u, active_supers-put_admin i a b rows)
]

-- The row `b` in the place of `a` takes no last active super-admin away.
abbrev IsSafe : List Admin → Admin → Admin → Type 0
IsSafe rows a b =
    (is_active_super b ≡ true) ⊎ (is_active_super a ≡ false) ⊎ (1 < active_supers rows)

change_role-IsSafe :
    (role : Option Role) (i : ℕ) (rows : List Admin) (a b : Admin)
    → change_role role i rows a ≡ ok b
    → IsSafe rows a b
unfolding change_role
change_role-IsSafe none i rows a b k = ground (arith, k)
change_role-IsSafe (some role) i rows a b k = ground (arith, k)

change_disabled-IsSafe :
    (disabled : Option Bool) (now i : ℕ) (rows : List Admin) (a b c : Admin)
    → HasUniqueIds rows
    → find (λ (x : Admin). x.id == i) rows ≡ some a
    → IsSafe rows a b
    → change_disabled disabled now i rows b ≡ ok c
    → IsSafe rows a c
unfolding change_disabled
change_disabled-IsSafe none now i rows a b c u h s k = ground (arith, k, s)
change_disabled-IsSafe (some false) now i rows a b c u h s k = ground (arith, k, s)
change_disabled-IsSafe (some true) now i rows a b c u h s k =
    ground (arith, k, s, active_supers-put_admin i a b rows u h)

with_password-active :
    (o : Option Text) (a : Admin) → is_active_super (with_password o a) ≡ is_active_super a
with_password-active none a = refl
with_password-active (some h) a = refl

changed_admin-IsSafe :
    (payload : AdminUpdate) (now i : ℕ) (rows : List Admin) (a d : Admin)
    → HasUniqueIds rows
    → find (λ (x : Admin). x.id == i) rows ≡ some a
    → changed_admin payload now i rows a ≡ ok d
    → IsSafe rows a d
unfolding changed_admin set_telegram
changed_admin-IsSafe payload now i rows a d u h k =
    after_role (change_role payload.role i rows a') refl k
  where
    a' : Admin
    a' = with_password payload.password_hash a

    after_disabled :
        (b : Admin)
        → IsSafe rows a b
        → (r : Result Admin) → change_disabled payload.disabled now i rows b ≡ r
        → and_then r (λ c. set_telegram payload.tg_user_id i rows c) ≡ ok d
        → IsSafe rows a d
    after_disabled b s (err x) e f = ground (arith, f)
    after_disabled b s (ok c) e f =
        ground (arith, f, change_disabled-IsSafe payload.disabled now i rows a b c u h s e)

    after_role :
        (r : Result Admin)
        → change_role payload.role i rows a' ≡ r
        → and_then r (λ b.
          and_then
            (change_disabled payload.disabled now i rows b)
            λ c. set_telegram payload.tg_user_id i rows c)
          ≡ ok d
        → IsSafe rows a d
    after_role (err x) e f = ground (arith, f)
    after_role (ok b) e f =
        after_disabled b
          (ground (
            arith,
            change_role-IsSafe payload.role i rows a' b e,
            with_password-active payload.password_hash a,
          ))
          (change_disabled payload.disabled now i rows b) refl f

-- From at least one active super-admin, whatever the change that the endpoint accepts, there is at least
-- one afterwards.
pub update_admin-active_supers :
    (i : ℕ) (payload : AdminUpdate) (now : ℕ) (db db' : Db)
    → HasUniqueIds db.admins
    → 0 < active_supers db.admins
    → update_admin i payload now db ≡ ok db'
    → 0 < active_supers db'.admins
unfolding update_admin
update_admin-active_supers i payload now db db' u some_super k = found (get_admin i db) refl
  where
    stored :
        (a : Admin)
        → get_admin i db ≡ some a
        → (r : Result Admin) → changed_admin payload now i db.admins a ≡ r
        → store_admin i db r ≡ ok db'
        → 0 < active_supers db'.admins
    stored a h (err x) e f = ground (arith, f)
    stored a h (ok d) e f =
        let same : put_admin i d db.admins ≡ db'.admins = ground (arith, f) in
        rw (← same) (
          ground (
            arith,
            some_super,
            active_supers-put_admin i a d db.admins u h,
            changed_admin-IsSafe payload now i db.admins a d u h e,
          ))

    found : (o : Option Admin) → get_admin i db ≡ o → 0 < active_supers db'.admins
    found none h = absurd (ground (arith, h, k))
    found (some a) h =
        stored a h (changed_admin payload now i db.admins a) refl (ground (arith, h, k))
