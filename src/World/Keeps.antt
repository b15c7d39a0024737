-- ===== src/World/Keeps.antt =====
-- What holds of the database before an action and after it, whether the action raises or not: one rule for
-- each way to build an action.
use telegram_cms.Prelude.{sym, subst, Bool, true, false, if◌then◌else◌}
use telegram_cms.World.{
  Db, World, Result, ok, err, Exn, Exec, ◌>>=◌, pure, raise, commit, try_except, continue, caught,
}
use telegram_cms.World.Frames.{Frames}

pub record Keeps {A : Type 0} (P : Db → Type 0) (m : Exec A) : Type 0 where
  pub at : (w : World) → P w.db → P (m w).1.db

module _ {A B : Type 0} (P : Db → Type 0) where
  continue-Keeps :
      (r : Result A) (f : A → Exec B) (w : World)
      → ((a : A) → P (f a w).1.db)
      → P w.db
      → P (continue r f w).1.db
  continue-Keeps (ok a) f w h k = h a
  continue-Keeps (err x) f w h k = k

  pub Keeps-bind :
      (m : Exec A) (f : A → Exec B) → Keeps P m → ((a : A) → Keeps P (f a)) → Keeps P (m >>= f)
  Keeps-bind m f hm hf = record {
    at = λ w h. continue-Keeps (m w).0 f (m w).1 (λ a. (hf a).at (m w).1 (hm.at w h)) (hm.at w h);
  }

module _ {A : Type 0} (P : Db → Type 0) where
  pub Keeps-pure : (a : A) → Keeps P (pure a)
  Keeps-pure a = record { at = λ w h. h }

  pub Keeps-raise : (x : Exn) → Keeps P (raise {A = A} x)
  Keeps-raise x = record { at = λ w h. h }

  -- An action that leaves the database alone.
  pub Keeps-Frames : (m : Exec A) → Frames (λ (w : World). w.db) m → Keeps P m
  Keeps-Frames m f = record { at = λ w h. subst P (sym (f.at w)) h }

  caught-Keeps :
      (r : Result A) (h : Exn → Exec A) (w : World)
      → ((x : Exn) → P (h x w).1.db)
      → P w.db
      → P (caught r h w).1.db
  caught-Keeps (ok a) h w k p = p
  caught-Keeps (err x) h w k p = k x

  pub Keeps-try :
      (m : Exec A) (h : Exn → Exec A)
      → Keeps P m
      → ((x : Exn) → Keeps P (h x))
      → Keeps P (try_except m h)
  Keeps-try m h hm hh = record {
    at = λ w p. caught-Keeps (m w).0 h (m w).1 (λ x. (hh x).at (m w).1 (hm.at w p)) (hm.at w p);
  }

  pub Keeps-if : (b : Bool) (m n : Exec A) → Keeps P m → Keeps P n → Keeps P (if b then m else n)
  Keeps-if true m n hm hn = hm
  Keeps-if false m n hm hn = hn

pub Keeps-commit :
    (P : Db → Type 0) (f : Db → Db) → ((db : Db) → P db → P (f db)) → Keeps P (commit f)
Keeps-commit P f h = record { at = λ w p. h w.db p }
