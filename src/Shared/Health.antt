-- ===== src/Shared/Health.antt =====
-- shared/health.py: the answer of a service to a health check.
pub mod Status
use telegram_cms.Prelude.{
  ℕ, Text, codes, text_eq, Bool, true, false, Option, none, some, List, [], ◌∷◌, ◌++◌, ◌&&◌,
  if◌then◌else◌,
}

-- How an extra check ends: with its pair, or with an exception of this class.
pub data Checked : Type 0 where
  answered : Bool × Text → Checked
  raised : Text → Checked

pub record ExtraCheck : Type 0 where
  pub name : Text
  pub result : Checked

pub record Response : Type 0 where
  pub ok : Bool
  pub status : ℕ
  pub checks : List (Text × Text)

abbrev pub error_of : Text → Text
error_of exc = codes "error:" ++ exc

-- `checks[name] = detail`
abbrev pub set_check : Text → Text → List (Text × Text) → List (Text × Text)
set_check name detail [] = (name, detail) ∷ []
set_check name detail ((n, d) ∷ rest) =
    if text_eq n name then (n, detail) ∷ rest else (n, d) ∷ set_check name detail rest

-- The database or Redis: the class of what the attempt to reach it raised, if it did.
abbrev pub reach : Text → Option Text → Bool × List (Text × Text) → Bool × List (Text × Text)
reach name none (ok, checks) = (ok, set_check name (codes "ok") checks)
reach name (some exc) (ok, checks) = (false, set_check name (error_of exc) checks)

abbrev pub outcome : Checked → Bool × Text
outcome (answered result) = result
outcome (raised exc) = (false, error_of exc)

abbrev pub run_check : ExtraCheck → Bool × List (Text × Text) → Bool × List (Text × Text)
run_check x (ok, checks) =
    let (check_ok, detail) = outcome x.result in
    (
      (if check_ok then ok else false),
      set_check x.name (if check_ok then codes "ok" else detail) checks,
    )

abbrev pub run_checks : List ExtraCheck → Bool × List (Text × Text) → Bool × List (Text × Text)
run_checks [] s = s
run_checks (x ∷ xs) s = run_checks xs (run_check x s)

abbrev respond : Bool × List (Text × Text) → Response
respond (ok, checks) = record { ok = ok; status = if ok then 200 else 503; checks = checks }

unfoldable pub healthz : Option Text → Option Text → List ExtraCheck → Response
healthz db redis extra =
    respond (run_checks extra (reach (codes "redis") redis (reach (codes "db") db (true, []))))
