-- ===== src/Api/Pages/Slices.antt =====
-- Slices of a list of rows, as LIMIT and OFFSET take them.
use telegram_cms.Prelude.{
  ℕ, zero, not, suc, ◌-◌, ◌≤◌, Bool, true, List, [], ◌∷◌, count, keep, length, take, drop, All,
  arith, ◌≡◌, refl, ◌∙◌, ap,
}
use telegram_cms.Api.Pages.{IsOrdering}

module _ {A : Type 0} where
  pub length-drop : (n : ℕ) (xs : List A) → length (drop n xs) ≡ length xs - n
  length-drop zero xs = omega arith
  length-drop (suc n) [] = omega arith
  length-drop (suc n) (x ∷ xs) = omega (arith, length-drop n xs)

  pub drop-all : (n : ℕ) (xs : List A) → length xs ≤ n → drop n xs ≡ []
  drop-all zero [] h = refl
  drop-all zero (x ∷ xs) h = absurd (omega (arith, h))
  drop-all (suc n) [] h = refl
  drop-all (suc n) (x ∷ xs) h = drop-all n xs (omega (arith, h))

  pub keep_all : (xs : List A) → keep (λ _. true) xs ≡ xs
  keep_all [] = refl
  keep_all (x ∷ xs) = ap (λ ys. x ∷ ys) (keep_all xs)

  pub count-none-All :
      (test : A → Bool) (xs : List A)
      → count (λ x. not (test x)) xs ≡ 0
      → All (λ x. test x ≡ true) xs
  count-none-All test [] h = tt
  count-none-All test (x ∷ xs) h = (ground (arith, h), count-none-All test xs (ground (arith, h)))

  pub All-count-none :
      (test : A → Bool) (xs : List A)
      → All (λ x. test x ≡ true) xs
      → count (λ x. not (test x)) xs ≡ 0
  All-count-none test [] h = refl
  All-count-none test (x ∷ xs) h = ground (arith, h.0, All-count-none test xs h.1)

  pub take-All : (P : A → Type 0) (n : ℕ) (xs : List A) → All P xs → All P (take n xs)
  take-All P zero xs h = tt
  take-All P (suc n) [] h = tt
  take-All P (suc n) (x ∷ xs) h = (h.0, take-All P n xs h.1)

  -- What holds of each row holds of each row in another order.
  pub ordered-All :
      (key : A → ℕ) (ordered : List A → List A)
      → IsOrdering key ordered
      → (test : A → Bool) (xs : List A) → All (λ x. test x ≡ true) xs
      → All (λ x. test x ≡ true) (ordered xs)
  ordered-All key ordered order test xs h =
      count-none-All test (ordered xs)
        (order.counts (λ x. not (test x)) xs ∙ All-count-none test xs h)
