-- ===== src/World/Triples.antt =====
-- What holds of the database before an action, after it where it returns, and after it where it raises: one rule
-- for each way to build an action.
use telegram_cms.Prelude.{sym, subst, Bool, true, false, if◌then◌else◌}
use telegram_cms.World.{
  Db, World, Result, ok, err, Exn, Exec, ◌>>=◌, pure, raise, get_db, commit, try_except, continue,
  caught,
}
use telegram_cms.World.Frames.{Frames}
use telegram_cms.World.Keeps.{Keeps}

abbrev pub Ends : {A : Type 0} → (Db → Type 0) → (Db → Type 0) → Result A → Db → Type 0
Ends Q X (ok a) db = Q db
Ends Q X (err x) db = X db

pub record Triple {A : Type 0} (P : Db → Type 0) (m : Exec A) (Q X : Db → Type 0) : Type 0 where
  pub at : (w : World) → P w.db → Ends Q X (m w).0 (m w).1.db

module _ {A B : Type 0} (Q R X : Db → Type 0) where
  continue-Ends :
      (r : Result A) (f : A → Exec B) (w : World)
      → ((a : A) → Triple Q (f a) R X)
      → Ends Q X r w.db
      → Ends R X (continue r f w).0 (continue r f w).1.db
  continue-Ends (ok a) f w h k = (h a).at w k
  continue-Ends (err x) f w h k = k

  pub Triple-bind :
      (P : Db → Type 0) (m : Exec A) (f : A → Exec B)
      → Triple P m Q X
      → ((a : A) → Triple Q (f a) R X)
      → Triple P (m >>= f) R X
  Triple-bind P m f hm hf = record { at = λ w p. continue-Ends (m w).0 f (m w).1 hf (hm.at w p) }

module _ {A : Type 0} (P Q X : Db → Type 0) where
  pub Triple-pure : (a : A) → ((db : Db) → P db → Q db) → Triple P (pure a) Q X
  Triple-pure a h = record { at = λ w p. h w.db p }

  pub Triple-raise : (x : Exn) → ((db : Db) → P db → X db) → Triple P (raise {A = A} x) Q X
  Triple-raise x h = record { at = λ w p. h w.db p }

  pub Triple-if :
      (b : Bool) (m n : Exec A)
      → Triple P m Q X
      → Triple P n Q X
      → Triple P (if b then m else n) Q X
  Triple-if true m n hm hn = hm
  Triple-if false m n hm hn = hn

  caught-Ends :
      (Y : Db → Type 0) (r : Result A) (h : Exn → Exec A) (w : World)
      → ((x : Exn) → Triple X (h x) Q Y)
      → Ends Q X r w.db
      → Ends Q Y (caught r h w).0 (caught r h w).1.db
  caught-Ends Y (ok a) h w k p = p
  caught-Ends Y (err x) h w k p = (k x).at w p

  pub Triple-try :
      (Y : Db → Type 0) (m : Exec A) (h : Exn → Exec A)
      → Triple P m Q X
      → ((x : Exn) → Triple X (h x) Q Y)
      → Triple P (try_except m h) Q Y
  Triple-try Y m h hm hh = record { at = λ w p. caught-Ends Y (m w).0 h (m w).1 hh (hm.at w p) }

module _ {A : Type 0} (P X : Db → Type 0) (weak : (db : Db) → P db → X db) where
  same-Ends : (r : Result A) (db : Db) → P db → Ends P X r db
  same-Ends (ok a) db p = p
  same-Ends (err x) db p = weak db p

  -- An action that leaves the database alone.
  pub Triple-Frames : (m : Exec A) → Frames (λ (w : World). w.db) m → Triple P m P X
  Triple-Frames m f = record { at = λ w p. same-Ends (m w).0 (m w).1.db (subst P (sym (f.at w)) p) }

  -- An action that keeps the condition.
  pub Triple-Keeps : (m : Exec A) → Keeps P m → Triple P m P X
  Triple-Keeps m k = record { at = λ w p. same-Ends (m w).0 (m w).1.db (k.at w p) }

pub Triple-get_db : (P X : Db → Type 0) → Triple P get_db P X
Triple-get_db P X = record { at = λ w p. p }

pub Triple-commit :
    (P Q X : Db → Type 0) (f : Db → Db) → ((db : Db) → P db → Q (f db)) → Triple P (commit f) Q X
Triple-commit P Q X f h = record { at = λ w p. h w.db p }

-- The same condition after a return and after an exception.
module _ {A : Type 0} (P : Db → Type 0) where
  either : (r : Result A) (db : Db) → Ends P P r db → P db
  either (ok a) db p = p
  either (err x) db p = p

  pub Keeps-Triple : (m : Exec A) → Triple P m P P → Keeps P m
  Keeps-Triple m h = record { at = λ w p. either (m w).0 (m w).1.db (h.at w p) }
