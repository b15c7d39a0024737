-- ===== src/Bot/Commands/Bounds.antt =====
-- How long the answer to /queue is, and where the commands answer.
use telegram_cms.Prelude.{
  ℕ, suc, ◌*◌, ◌≤◌, ltb, Text, codes, Bool, true, List, [], ◌∷◌, ◌++◌, map, take, count, keep,
  keep-All, length, length-append, length-take-le, All, arith, ◌≡◌, refl, ap, opt_or,
}
use telegram_cms.Models.{Post}
use telegram_cms.World.{Db}
use telegram_cms.Env.{Env}
use telegram_cms.Api.Pages.{IsOrdering}
use telegram_cms.Api.Pages.Slices.{take-All, ordered-All}
use telegram_cms.Api.Queue.Listing.{received}
use telegram_cms.Bot.Cards.{join}
use telegram_cms.Bot.Commands.{is_pending, preview, post_line, recent, queue_text}

length-map : {A B : Type 0} (f : A → B) (xs : List A) → length (map f xs) ≡ length xs
length-map f [] = refl
length-map f (x ∷ xs) = ap suc (length-map f xs)

length-join :
    (bound : ℕ) (ts : List Text)
    → All (λ (t : Text). length t ≤ bound) ts
    → length (join (codes "\n") ts) ≤ length ts * suc bound
length-join bound [] h = omega arith
length-join bound (t ∷ []) h = omega (arith, h.0)
length-join bound (t ∷ u ∷ rest) h = omega (
  arith,
  h.0,
  length-join bound (u ∷ rest) h.1,
  length-append t (codes "\n" ++ join (codes "\n") (u ∷ rest)),
)

length-preview : (p : Post) → length (preview p) ≤ 80
length-preview p = omega (
  arith,
  length-map _ (take 80 (opt_or p.normalized_text (opt_or p.raw_text (codes "(empty)")))),
  length-take-le 80 (opt_or p.normalized_text (opt_or p.raw_text (codes "(empty)"))),
)

count-le : (test : Post → Bool) (ps : List Post) → count test ps ≤ length ps
count-le test [] = omega arith
count-le test (p ∷ ps) = ground (arith, count-le test ps)

-- The ids are columns of 64 bits.
abbrev pub is_bigint : ℕ → Bool
is_bigint n = ltb n 9223372036854775808

module _ (e : Env) (digits : (n : ℕ) → is_bigint n ≡ true → length (e.decimal n) ≤ 19) where
  length-post_line : (p : Post) → is_bigint p.id ≡ true → length (post_line e p) ≤ 104
  length-post_line p h = omega (
    arith,
    digits p.id h,
    length-preview p,
    length-append (e.decimal p.id) (codes ": " ++ preview p),
  )

  lines-All :
      (ps : List Post)
      → All (λ (p : Post). is_bigint p.id ≡ true) ps
      → All (λ (t : Text). length t ≤ 104) (map (post_line e) ps)
  lines-All [] h = tt
  lines-All (p ∷ ps) h = (length-post_line p h.0, lines-All ps h.1)

  recent-All :
      (newest : List Post → List Post)
      → IsOrdering received newest
      → (db : Db) → All (λ (p : Post). is_bigint p.id ≡ true) db.posts
      → All (λ (p : Post). is_bigint p.id ≡ true) (recent newest db)
  recent-All newest order db ids = take-All _ 5 _ (
      ordered-All received newest order (λ p. is_bigint p.id) (keep is_pending db.posts)
        (keep-All (λ p. is_bigint p.id ≡ true) (λ p. is_bigint p.id ≡ true) is_pending db.posts
          (λ p _ h. h) ids))

  pub queue_text-length :
      (newest : List Post → List Post)
      → IsOrdering received newest
      → (db : Db) → is_bigint (length db.posts) ≡ true
      → All (λ (p : Post). is_bigint p.id ≡ true) db.posts
      → length (queue_text e newest db) ≤ 630
  unfolding queue_text
  queue_text-length newest order db few ids = omega (
    arith,
    length-join 104 (header ∷ map (post_line e) (recent newest db))
        (header_le, lines-All _ (recent-All newest order db ids)),
    length-map (post_line e) (recent newest db),
    length-take-le 5 (newest (keep is_pending db.posts)),
  )
    where
      header : Text
      header =
          codes "<b>Pending queue</b> ("
          ++ (e.decimal (count is_pending db.posts) ++ codes " total)")

      few_pending : is_bigint (count is_pending db.posts) ≡ true
      few_pending = ground (arith, few, count-le is_pending db.posts)

      header_le : length header ≤ 104
      header_le = omega (
        arith,
        digits _ few_pending,
        length-append (e.decimal (count is_pending db.posts)) (codes " total)"),
      )
