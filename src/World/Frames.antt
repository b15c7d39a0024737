-- ===== src/World/Frames.antt =====
-- What an action leaves as it was: one rule for each way to build an action. A view is a part of the
-- world, such as the database or the queues.
use telegram_cms.Prelude.{◌≡◌, refl, ◌∙◌, Bool, true, false, if◌then◌else◌}
use telegram_cms.World.{
  World, Result, ok, err, Exn, Exec, ◌>>=◌, ◌>>◌, pure, raise, try_except, continue, caught,
}

pub record Frames {V A : Type 0} (view : World → V) (m : Exec A) : Type 0 where
  pub at : (w : World) → view (m w).1 ≡ view w

module _ {V A B : Type 0} (view : World → V) where
  continue-Frames :
      (r : Result A) (f : A → Exec B) (w : World)
      → ((a : A) → view (f a w).1 ≡ view w)
      → view (continue r f w).1 ≡ view w
  continue-Frames (ok a) f w h = h a
  continue-Frames (err x) f w h = refl

  pub Frames-bind :
      (m : Exec A) (f : A → Exec B)
      → Frames view m
      → ((a : A) → Frames view (f a))
      → Frames view (m >>= f)
  Frames-bind m f hm hf = record {
    at = λ w. continue-Frames (m w).0 f (m w).1 (λ a. (hf a).at (m w).1) ∙ hm.at w;
  }

module _ {V A : Type 0} (view : World → V) where
  pub Frames-pure : (a : A) → Frames view (pure a)
  Frames-pure a = record { at = λ w. refl }

  pub Frames-raise : (x : Exn) → Frames view (raise {A = A} x)
  Frames-raise x = record { at = λ w. refl }

  caught-Frames :
      (r : Result A) (h : Exn → Exec A) (w : World)
      → ((x : Exn) → view (h x w).1 ≡ view w)
      → view (caught r h w).1 ≡ view w
  caught-Frames (ok a) h w k = refl
  caught-Frames (err x) h w k = k x

  pub Frames-try :
      (m : Exec A) (h : Exn → Exec A)
      → Frames view m
      → ((x : Exn) → Frames view (h x))
      → Frames view (try_except m h)
  Frames-try m h hm hh = record {
    at = λ w. caught-Frames (m w).0 h (m w).1 (λ x. (hh x).at (m w).1) ∙ hm.at w;
  }

  pub Frames-if :
      (b : Bool) (m n : Exec A) → Frames view m → Frames view n → Frames view (if b then m else n)
  Frames-if true m n hm hn = hm
  Frames-if false m n hm hn = hn

-- An action whose result is dropped and whose exceptions are handled leaves what the action left.
pub try_discard :
    {V A : Type 0} (view : World → V) (m : Exec A) (h : Exn → Exec (Unit {0})) (w : World)
    → ((x : Exn) → Frames view (h x))
    → view (try_except (do m; pure tt) h w).1 ≡ view (m w).1
try_discard {V} {A} view m h w hh = go (m w).0 (m w).1
  where
    go :
        (r : Result A) (v : World)
        → view
            (caught
              (continue {B = Unit {0}} r (λ _. pure tt) v).0
              h
              (continue {B = Unit {0}} r (λ _. pure tt) v).1).1
          ≡ view v
    go (ok a) v = refl
    go (err x) v = (hh x).at v

-- It does not raise where the handler does not.
pub try_discard-ok :
    {A : Type 0} (m : Exec A) (h : Exn → Exec (Unit {0})) (w : World)
    → ((x : Exn) (v : World) → (h x v).0 ≡ ok tt)
    → (try_except (do m; pure tt) h w).0 ≡ ok tt
try_discard-ok {A} m h w hh = go (m w).0 (m w).1
  where
    go :
        (r : Result A) (v : World)
        → (caught
            (continue {B = Unit {0}} r (λ _. pure tt) v).0
            h
            (continue {B = Unit {0}} r (λ _. pure tt) v).1).0
          ≡ ok tt
    go (ok a) v = refl
    go (err x) v = hh x v
