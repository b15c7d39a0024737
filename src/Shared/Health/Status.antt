-- ===== src/Shared/Health/Status.antt =====
-- When a service reports that it is healthy.
use telegram_cms.Prelude.{
  Text, codes, Bool, true, Option, none, some, is_some, not, List, [], ◌∷◌, ◌&&◌, all, arith, ◌≡◌,
  ◌∙◌, ◌==◌,
}
use telegram_cms.Shared.Health.{ExtraCheck, reach, outcome, run_check, run_checks, healthz}

abbrev pub passes : ExtraCheck → Bool
passes x = (outcome x.result).0

run_checks-ok :
    (xs : List ExtraCheck) (s : Bool × List (Text × Text))
    → (run_checks xs s).0 ≡ (s.0 && all passes xs)
run_checks-ok [] s = ground arith
run_checks-ok (x ∷ xs) s = run_checks-ok xs (run_check x s) ∙ ground arith

reach-ok :
    (name : Text) (o : Option Text) (s : Bool × List (Text × Text))
    → (reach name o s).0 ≡ (s.0 && not (is_some o))
reach-ok name none s = ground arith
reach-ok name (some exc) s = ground arith

-- A service answers with status 200 exactly if the database and Redis were reached and every extra check passed.
pub healthz-status :
    (db redis : Option Text) (extra : List ExtraCheck)
    → ((healthz db redis extra).status == 200)
      ≡ (not (is_some db) && (not (is_some redis) && all passes extra))
unfolding healthz
healthz-status db redis extra =
    let first = reach (codes "db") db (true, []) in
    let both = reach (codes "redis") redis first in
    ground (
      arith,
      run_checks-ok extra both,
      reach-ok (codes "redis") redis first,
      reach-ok (codes "db") db (true, []),
    )
