-- ===== src/Prelude/Lists.antt =====
-- Lists over the native numbers, with Boolean tests.
use Prim.Native.Nat.{ℕ, zero, suc, ◌+◌, ◌≤◌}
use mathlib.Core.Path.{◌≡◌, refl, subst}
use mathlib.Core.Bool.{Bool, true, false, not, ◌&&◌, ◌||◌}
use mathlib.Core.Option.{Option, none, some}
use mathlib.Core.List.{List, [], ◌∷◌, ◌++◌}
use native.Mathlib.Omega.{arith}
use telegram_cms.Prelude.Tests.{if◌then◌else◌, ◌==◌}

module _ {ℓ} {A : Type ℓ} where
  abbrev pub length : List A → ℕ
  length [] = 0
  length (x ∷ xs) = suc (length xs)

  abbrev pub take : ℕ → List A → List A
  take zero xs = []
  take (suc n) [] = []
  take (suc n) (x ∷ xs) = x ∷ take n xs

  abbrev pub drop : ℕ → List A → List A
  drop zero xs = xs
  drop (suc n) [] = []
  drop (suc n) (x ∷ xs) = drop n xs

  abbrev pub is_empty : List A → Bool
  is_empty [] = true
  is_empty (x ∷ xs) = false

  -- The first row that passes the test.
  abbrev pub find : (A → Bool) → List A → Option A
  find p [] = none
  find p (x ∷ xs) = if p x then some x else find p xs

  -- The rows that pass the test, in order.
  abbrev pub keep : (A → Bool) → List A → List A
  keep p [] = []
  keep p (x ∷ xs) = let rest = keep p xs in if p x then x ∷ rest else rest

  -- `UPDATE … SET f WHERE p`.
  abbrev pub modify : (A → Bool) → (A → A) → List A → List A
  modify p f [] = []
  modify p f (x ∷ xs) = (if p x then f x else x) ∷ modify p f xs

  abbrev pub any : (A → Bool) → List A → Bool
  any p [] = false
  any p (x ∷ xs) = p x || any p xs

  abbrev pub all : (A → Bool) → List A → Bool
  all p [] = true
  all p (x ∷ xs) = p x && all p xs

  abbrev pub All {κ} : (A → Type κ) → List A → Type κ
  All P [] = Unit
  All P (x ∷ xs) = P x × All P xs

  pub map-All {κ ι} :
      (P : A → Type κ) (Q : A → Type ι)
      → ((x : A) → P x → Q x)
      → (xs : List A) → All P xs
      → All Q xs
  map-All P Q f [] h = tt
  map-All P Q f (x ∷ xs) h = (f x h.0, map-All P Q f xs h.1)

  pub modify-All {κ ι} :
      (P : A → Type κ) (Q : A → Type ι) (test : A → Bool) (f : A → A) (xs : List A)
      → ((x : A) → test x ≡ true → P x → Q (f x))
      → ((x : A) → test x ≡ false → P x → Q x)
      → All P xs
      → All Q (modify test f xs)
  modify-All P Q test f [] h m k = tt
  modify-All P Q test f (x ∷ xs) h m k =
      (changed (test x) (h x) (m x), modify-All P Q test f xs h m k.1)
    where
      changed :
          (b : Bool)
          → (b ≡ true → P x → Q (f x))
          → (b ≡ false → P x → Q x)
          → Q (if b then f x else x)
      changed true hit miss = hit refl k.0
      changed false hit miss = miss refl k.0

  pub keep-All {κ ι} :
      (P : A → Type κ) (Q : A → Type ι) (test : A → Bool) (xs : List A)
      → ((x : A) → test x ≡ true → P x → Q x)
      → All P xs
      → All Q (keep test xs)
  keep-All P Q test [] h k = tt
  keep-All P Q test (x ∷ xs) h k = kept (test x) (h x) (keep-All P Q test xs h k.1)
    where
      kept :
          (b : Bool)
          → (b ≡ true → P x → Q x)
          → All Q (keep test xs)
          → All Q (if b then x ∷ keep test xs else keep test xs)
      kept true h rest = (h refl k.0, rest)
      kept false h rest = rest

  some-injective : {x y : A} → some x ≡ some y → x ≡ y
  some-injective e = ground (arith, e)

  pub find-All {κ} :
      (P : A → Type κ) (test : A → Bool) (xs : List A) (r : A)
      → find test xs ≡ some r
      → All P xs
      → P r
  find-All P test [] r e h = absurd (ground (arith, e))
  find-All P test (x ∷ xs) r e h = found (test x) (λ k. find-All P test xs r k h.1) e
    where
      found :
          (b : Bool)
          → (find test xs ≡ some r → P r)
          → (if b then some x else find test xs) ≡ some r
          → P r
      found true rest k = subst P (some-injective k) h.0
      found false rest k = rest k

  pub append-All {κ} : (P : A → Type κ) (xs ys : List A) → All P xs → All P ys → All P (xs ++ ys)
  append-All P [] ys h k = k
  append-All P (x ∷ xs) ys h k = (h.0, append-All P xs ys h.1 k)

  abbrev pub count : (A → Bool) → List A → ℕ
  count p xs = length (keep p xs)

  pub length-append : (xs ys : List A) → length (xs ++ ys) ≡ length xs + length ys
  length-append [] ys = omega arith
  length-append (x ∷ xs) ys = omega (arith, length-append xs ys)

  pub length-take-le : (n : ℕ) (xs : List A) → length (take n xs) ≤ n
  length-take-le zero xs = omega arith
  length-take-le (suc n) [] = omega arith
  length-take-le (suc n) (x ∷ xs) = omega (arith, length-take-le n xs)

  pub any-append : (p : A → Bool) (xs ys : List A) → any p (xs ++ ys) ≡ (any p xs || any p ys)
  any-append p [] ys = refl
  any-append p (x ∷ xs) ys = ground (arith, any-append p xs ys)

  pub count-append : (p : A → Bool) (xs ys : List A) → count p (xs ++ ys) ≡ count p xs + count p ys
  count-append p [] ys = omega arith
  count-append p (x ∷ xs) ys = ground (arith, count-append p xs ys)

  -- An update that keeps a test's value leaves the answer of the test.
  pub any-modify :
      (q p : A → Bool) (f : A → A) (xs : List A)
      → ((x : A) → q (f x) ≡ q x)
      → any q (modify p f xs) ≡ any q xs
  any-modify q p f [] h = refl
  any-modify q p f (x ∷ xs) h = ground (arith, h x, any-modify q p f xs h)

  -- The row that a query finds after an update of the rows that it asks for.
  pub find-modify :
      (p : A → Bool) (f : A → A) (xs : List A) (r : A)
      → ((x : A) → p x ≡ true → p (f x) ≡ true)
      → find p xs ≡ some r
      → find p (modify p f xs) ≡ some (f r)
  find-modify p f [] r h e = ground arith
  find-modify p f (x ∷ xs) r h e = ground (arith, h x, find-modify p f xs r h)

  -- An update of other rows is not seen by a query.
  pub find-modify_ne :
      (p q : A → Bool) (f : A → A) (xs : List A)
      → ((x : A) → p x ≡ true → q (f x) ≡ false)
      → ((x : A) → p x ≡ true → q x ≡ false)
      → find q (modify p f xs) ≡ find q xs
  find-modify_ne p q f [] h k = refl
  find-modify_ne p q f (x ∷ xs) h k = ground (arith, h x, k x, find-modify_ne p q f xs h k)

  -- A new row that passes the test is found where none passed it.
  pub find-append :
      (p : A → Bool) (xs : List A) (x : A)
      → find p xs ≡ none
      → p x ≡ true
      → find p (xs ++ (x ∷ [])) ≡ some x
  find-append p [] x h k = ground (arith, k)
  find-append p (y ∷ ys) x h k = ground (arith, h, find-append p ys x)

  pub find_sound : (p : A → Bool) (xs : List A) (r : A) → find p xs ≡ some r → p r ≡ true
  find_sound p [] r e = ground arith
  find_sound p (x ∷ xs) r e = ground (arith, find_sound p xs r)

  pub find-any : (p : A → Bool) (xs : List A) (r : A) → find p xs ≡ some r → any p xs ≡ true
  find-any p [] r e = ground arith
  find-any p (x ∷ xs) r e = ground (arith, find-any p xs r)

  pub find-keep-not : (p : A → Bool) (xs : List A) → find p (keep (λ x. not (p x)) xs) ≡ none
  find-keep-not p [] = refl
  find-keep-not p (x ∷ xs) = ground (arith, find-keep-not p xs)

  pub any-keep_not :
      (p q : A → Bool) (xs : List A)
      → ((x : A) → q x ≡ true → p x ≡ false)
      → any p (keep q xs) ≡ false
  any-keep_not p q [] h = refl
  any-keep_not p q (x ∷ xs) h = ground (arith, h x, any-keep_not p q xs h)

-- Membership of a number in a list: `x in xs`, `x IN (xs)`.
abbrev pub elem : ℕ → List ℕ → Bool
elem n = any (λ m. n == m)
