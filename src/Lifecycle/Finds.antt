-- ===== src/Lifecycle/Finds.antt =====
-- What a look-up of a post by its id finds after the writes of the services.
use telegram_cms.Prelude.{
  ℕ, ◌<◌, ◌≤◌, Bool, true, Option, none, some, List, [], ◌∷◌, ◌++◌, keep, modify, find, all, All,
  arith, ◌≡◌, refl, ◌==◌, if◌then◌else◌,
}
use telegram_cms.Models.{Post}
use telegram_cms.World.Keyed.{are_keyed, differ}

abbrev pub changed : (Post → Post) → Option Post → Option Post
changed f none = none
changed f (some p) = some (f p)

pub find-modify-id :
    (i j : ℕ) (f : Post → Post) (ids : (p : Post) → (f p).id ≡ p.id) (ps : List Post)
    → find (λ (p : Post). p.id == i) (modify (λ (p : Post). p.id == j) f ps) ≡ (
        if j == i
        then changed f (find (λ (p : Post). p.id == i) ps)
        else find (λ (p : Post). p.id == i) ps)
find-modify-id i j f ids [] = ground arith
find-modify-id i j f ids (p ∷ ps) = ground (arith, ids p, find-modify-id i j f ids ps)

pub find-rewrite :
    (i : ℕ) (test : Post → Bool) (f : Post → Post) (ids : (p : Post) → (f p).id ≡ p.id)
    (ps : List Post)
    → find (λ (p : Post). p.id == i) (modify test f ps)
      ≡ changed (λ p. if test p then f p else p) (find (λ (p : Post). p.id == i) ps)
find-rewrite i test f ids [] = refl
find-rewrite i test f ids (p ∷ ps) = ground (arith, ids p, find-rewrite i test f ids ps)

pub find-append-one :
    (i : ℕ) (ps : List Post) (x : Post)
    → find (λ (p : Post). p.id == i) (ps ++ (x ∷ []))
      ≡ elim (find (λ (p : Post). p.id == i) ps) as (λ _. Option Post) [
        | some p ↦ some p
        | none ↦ if x.id == i then some x else none
      ]
find-append-one i [] x = ground arith
find-append-one i (p ∷ ps) x = ground (arith, find-append-one i ps x)

find-made :
    (i n : ℕ) (ps : List Post)
    → All (λ (p : Post). p.id < n) ps
    → n ≤ i
    → find (λ (p : Post). p.id == i) ps ≡ none
find-made i n [] h k = refl
find-made i n (p ∷ ps) h k = ground (arith, h, find-made i n ps h.1 k)

find-differ :
    (i : ℕ) (p : Post) (ps : List Post)
    → (p.id == i) ≡ true
    → all (differ p) ps ≡ true
    → find (λ (q : Post). q.id == i) ps ≡ none
find-differ i p [] h k = refl
find-differ i p (q ∷ qs) h k = ground (arith, h, k, find-differ i p qs h)

find-keep-none :
    (i : ℕ) (test : Post → Bool) (ps : List Post)
    → find (λ (p : Post). p.id == i) ps ≡ none
    → find (λ (p : Post). p.id == i) (keep test ps) ≡ none
find-keep-none i test [] h = refl
find-keep-none i test (p ∷ ps) h = ground (arith, h, find-keep-none i test ps)

pub find-keep-id :
    (i : ℕ) (test : Post → Bool) (ps : List Post)
    → are_keyed ps ≡ true
    → find (λ (p : Post). p.id == i) (keep test ps)
      ≡ elim (find (λ (p : Post). p.id == i) ps) as (λ _. Option Post) [
        | some p ↦ if test p then some p else none
        | none ↦ none
      ]
find-keep-id i test [] h = refl
find-keep-id i test (p ∷ ps) h =
    ground (arith, h, find-keep-id i test ps, find-differ i p ps, find-keep-none i test ps)
