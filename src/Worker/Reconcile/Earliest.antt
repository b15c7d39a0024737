-- ===== src/Worker/Reconcile/Earliest.antt =====
-- A row of a batch: who comes early enough is in it.
use telegram_cms.Prelude.{
  ℕ, zero, suc, ◌≤◌, Bool, List, [], ◌∷◌, arith, ◌≡◌, refl, ◌⊎◌, inl, inr, take, count, leb,
  Bool-cases, keep, true, ap, ◌∙◌, length, All,
}
use telegram_cms.Models.{Post}
use telegram_cms.Worker.Reconcile.{insert_post, sort_posts}
use telegram_cms.Worker.Reconcile.Requeue.{IsSorted}

abbrev pub Has : Post → List Post → Type 0
Has p [] = ⊥
Has p (q ∷ qs) = (q ≡ p) ⊎ Has p qs

pub keep-Has :
    (test : Post → Bool) (p : Post) (qs : List Post)
    → test p ≡ true
    → Has p qs
    → Has p (keep test qs)
keep-Has test p [] k h = h
keep-Has test p (q ∷ qs) k (inl e) = rw (ap test e ∙ k) (inl e)
keep-Has test p (q ∷ qs) k (inr h) = elim (Bool-cases (test q)) [
  | inl yes_q ↦ rw yes_q (inr (keep-Has test p qs k h))
  | inr no_q ↦ rw no_q (keep-Has test p qs k h)
]

behind :
    (p q r : Post) (rs ss : List Post)
    → ((q ≡ p) ⊎ Has p rs → Has p ss)
    → (q ≡ p) ⊎ Has p (r ∷ rs)
    → Has p (r ∷ ss)
behind p q r rs ss deeper (inl e) = inr (deeper (inl e))
behind p q r rs ss deeper (inr (inl e)) = inl e
behind p q r rs ss deeper (inr (inr k)) = inr (deeper (inr k))

module _ (key : Post → ℕ) where
  insert_post-Has :
      (p q : Post) (qs : List Post) → (q ≡ p) ⊎ Has p qs → Has p (insert_post key q qs)
  unfolding insert_post
  insert_post-Has p q [] h = h
  insert_post-Has p q (r ∷ rs) h = elim (Bool-cases (leb (key q) (key r))) [
    | inl before ↦ rw before h
    | inr after ↦ rw after (behind p q r rs _ (insert_post-Has p q rs) h)
  ]

  pub sort_posts-Has : (p : Post) (qs : List Post) → Has p qs → Has p (sort_posts key qs)
  unfolding sort_posts
  sort_posts-Has p [] h = elim h [ ]
  sort_posts-Has p (q ∷ qs) (inl e) = insert_post-Has p q _ (inl e)
  sort_posts-Has p (q ∷ qs) (inr h) = insert_post-Has p q _ (inr (sort_posts-Has p qs h))

  count-insert_post :
      (test : Post → Bool) (p : Post) (qs : List Post)
      → count test (insert_post key p qs) ≡ count test (p ∷ qs)
  unfolding insert_post
  count-insert_post test p [] = refl
  count-insert_post test p (q ∷ qs) = ground (arith, count-insert_post test p qs)

  pub count-sort_posts :
      (test : Post → Bool) (ps : List Post) → count test (sort_posts key ps) ≡ count test ps
  unfolding sort_posts
  count-sort_posts test [] = refl
  count-sort_posts test (p ∷ ps) =
      ground (arith, count-insert_post test p (sort_posts key ps), count-sort_posts test ps)

  head-le : (p q : Post) (qs : List Post) → IsSorted key (q ∷ qs) → Has p qs → key q ≤ key p
  head-le p q [] h k = elim k [ ]
  head-le p q (r ∷ rs) h (inl e) = rw (← e) h.0
  head-le p q (r ∷ rs) h (inr k) = omega (arith, h.0, head-le p r rs h.1 k)

  counted :
      (p q : Post) (qs : List Post)
      → key q ≤ key p
      → count (λ q. leb (key q) (key p)) (q ∷ qs) ≡ suc (count (λ q. leb (key q) (key p)) qs)
  counted p q qs h = ground (arith, h)

  tail-IsSorted : (q : Post) (qs : List Post) → IsSorted key (q ∷ qs) → IsSorted key qs
  tail-IsSorted q [] h = tt
  tail-IsSorted q (r ∷ rs) h = h.1

  first-le : (p q : Post) (qs : List Post) → IsSorted key (q ∷ qs) → Has p (q ∷ qs) → key q ≤ key p
  first-le p q qs s (inl e) = rw e (omega arith)
  first-le p q qs s (inr h) = head-le p q qs s h

  -- Where at most `n` rows come before it or with it, a row is among the first `n`.
  pub take-Has :
      (p : Post) (n : ℕ) (qs : List Post)
      → IsSorted key qs
      → Has p qs
      → count (λ q. leb (key q) (key p)) qs ≤ n
      → Has p (take n qs)
  take-Has p n [] s h le = elim h [ ]
  take-Has p zero (q ∷ qs) s h le = absurd (omega (arith, counted p q qs (first-le p q qs s h)))
  take-Has p (suc n) (q ∷ qs) s (inl e) le = inl e
  take-Has p (suc n) (q ∷ qs) s (inr h) le = inr (
      take-Has p n qs (tail-IsSorted q qs s) h (omega (arith, counted p q qs (head-le p q qs s h))))

  -- A row is among the first `n`, or these are `n` rows and none comes after it.
  pub take_full :
      (p : Post) (n : ℕ) (qs : List Post)
      → IsSorted key qs
      → Has p qs
      → Has p (take n qs)
        ⊎ ((length (take n qs) ≡ n) × All (λ (q : Post). key q ≤ key p) (take n qs))
  take_full p n [] s h = elim h [ ]
  take_full p zero (q ∷ qs) s h = inr (refl, tt)
  take_full p (suc n) (q ∷ qs) s (inl e) = inl (inl e)
  take_full p (suc n) (q ∷ qs) s (inr h) = elim (take_full p n qs (tail-IsSorted q qs s) h) [
    | inl first ↦ inl (inr first)
    | inr full ↦ inr (omega (arith, full.0), (head-le p q qs s h, full.1))
  ]
