-- ===== src/Shared/Watermark/Untagged.antt =====
-- No tag of the source is left: a tag is a mark, `#` or `@`, before a word character.
use telegram_cms.Prelude.{
  ℕ, ◌+◌, Text, Bool, true, false, ◌&&◌, ◌||◌, none, [], ◌∷◌, ◌==◌, arith, ◌≡◌, refl, ◌≢◌,
}
use telegram_cms.Env.{Chars}
use telegram_cms.Shared.Watermark.{
  starts_word, strip_marked, strip_links, collapse_lines, lstrip, rstrip, strip_tags,
  apply_watermark,
}

-- The mark stands before a word character somewhere in the text.
pub tagged : Chars → ℕ → Text → Bool
tagged ch m [] = false
tagged ch m (x ∷ xs) = ((x == m) && starts_word ch xs) || tagged ch m xs

module _ (ch : Chars) where
  -- A walk that never puts a word character first where there was none makes no tag.
  starts-strip_marked_in :
      (n : ℕ) (xs : Text)
      → ch.is_word n ≡ false
      → starts_word ch (strip_marked ch n true xs) ≡ false
  unfolding starts_word strip_marked
  starts-strip_marked_in n [] h = refl
  starts-strip_marked_in n (x ∷ xs) h = ground (arith, starts-strip_marked_in n xs h)

  starts-strip_marked :
      (n : ℕ) (xs : Text)
      → ch.is_word n ≡ false
      → starts_word ch (strip_marked ch n false xs) ≡ true
      → starts_word ch xs ≡ true
  unfolding starts_word strip_marked
  starts-strip_marked n [] h k = ground arith
  starts-strip_marked n (x ∷ xs) h k = ground (arith, k, starts-strip_marked_in n xs h)

  tagged-strip_marked :
      (n : ℕ) (inside : Bool) (xs : Text)
      → ch.is_word n ≡ false
      → tagged ch n (strip_marked ch n inside xs) ≡ false
  unfolding tagged strip_marked
  tagged-strip_marked n inside [] h = refl
  tagged-strip_marked n inside (x ∷ xs) h = ground (
    arith,
    tagged-strip_marked n true xs h,
    tagged-strip_marked n false xs h,
    starts-strip_marked n xs h,
  )

  -- Another mark's walk, and the links', the lines' and the ends'.
  tagged-strip_other :
      (m n : ℕ) (inside : Bool) (xs : Text)
      → ch.is_word n ≡ false
      → tagged ch m xs ≡ false
      → tagged ch m (strip_marked ch n inside xs) ≡ false
  unfolding tagged strip_marked
  tagged-strip_other m n inside [] h k = refl
  tagged-strip_other m n inside (x ∷ xs) h k = ground (
    arith,
    k,
    tagged-strip_other m n true xs h,
    tagged-strip_other m n false xs h,
    starts-strip_marked n xs h,
  )

  module _ (apart : (c : ℕ) → ch.is_space c ≡ true → ch.is_word c ≡ false) where
    starts-strip_links_in : (xs : Text) → starts_word ch (strip_links ch true xs) ≡ false
    unfolding starts_word strip_links
    starts-strip_links_in [] = refl
    starts-strip_links_in (x ∷ xs) = ground (arith, apart x, starts-strip_links_in xs)

    starts-strip_links :
        (xs : Text) → starts_word ch (strip_links ch false xs) ≡ true → starts_word ch xs ≡ true
    unfolding starts_word strip_links
    starts-strip_links [] k = ground arith
    starts-strip_links (x ∷ xs) k = ground (arith, k, starts-strip_links_in xs)

    tagged-strip_links :
        (m : ℕ) (inside : Bool) (xs : Text)
        → tagged ch m xs ≡ false
        → tagged ch m (strip_links ch inside xs) ≡ false
    unfolding tagged strip_links
    tagged-strip_links m inside [] k = refl
    tagged-strip_links m inside (x ∷ xs) k = ground (
      arith,
      k,
      tagged-strip_links m true xs,
      tagged-strip_links m false xs,
      starts-strip_links xs,
    )

  starts-collapse_lines :
      (xs : Text) → starts_word ch (collapse_lines 0 xs) ≡ true → starts_word ch xs ≡ true
  unfolding starts_word collapse_lines
  starts-collapse_lines [] k = ground arith
  starts-collapse_lines (x ∷ xs) k = ground (arith, k)

  tagged-collapse_lines :
      (m n : ℕ) (xs : Text)
      → m ≢ 10
      → tagged ch m xs ≡ false
      → tagged ch m (collapse_lines n xs) ≡ false
  unfolding tagged collapse_lines
  tagged-collapse_lines m n [] h k = refl
  tagged-collapse_lines m n (x ∷ xs) h k = ground (
    arith,
    k,
    h,
    tagged-collapse_lines m 0 xs h,
    tagged-collapse_lines m (n + 1) xs h,
    tagged-collapse_lines m n xs h,
    starts-collapse_lines xs,
  )

  tagged-lstrip : (m : ℕ) (xs : Text) → tagged ch m xs ≡ false → tagged ch m (lstrip ch xs) ≡ false
  unfolding tagged lstrip
  tagged-lstrip m [] k = refl
  tagged-lstrip m (x ∷ xs) k = ground (arith, k, tagged-lstrip m xs)

  starts-rstrip : (xs : Text) → starts_word ch (rstrip ch xs) ≡ true → starts_word ch xs ≡ true
  unfolding starts_word rstrip
  starts-rstrip [] k = ground arith
  starts-rstrip (x ∷ xs) k = ground (arith, k)

  tagged-rstrip : (m : ℕ) (xs : Text) → tagged ch m xs ≡ false → tagged ch m (rstrip ch xs) ≡ false
  unfolding tagged rstrip
  tagged-rstrip m [] k = refl
  tagged-rstrip m (x ∷ xs) k = ground (arith, k, tagged-rstrip m xs, starts-rstrip xs)

  -- Where no character is both white and of a word, and neither mark is of a word, the text that
  -- `apply_watermark` makes with the source's tags stripped and no brand has no `#` and no `@` before a
  -- word character.
  pub tagged-apply_watermark :
      (t : Text)
      → ((c : ℕ) → ch.is_space c ≡ true → ch.is_word c ≡ false)
      → ch.is_word b'#' ≡ false
      → ch.is_word b'@' ≡ false
      → (tagged ch b'#' (apply_watermark ch t none true) ≡ false)
        × (tagged ch b'@' (apply_watermark ch t none true) ≡ false)
  unfolding apply_watermark
  tagged-apply_watermark t apart hash mention = (
    after b'#' (omega arith)
        (tagged-strip_other b'#' b'@' false hashed mention (tagged-strip_marked b'#' false t hash)),
    after b'@' (omega arith) (tagged-strip_marked b'@' false hashed mention),
  )
    where
      hashed : Text
      hashed = strip_marked ch b'#' false t

      after :
          (m : ℕ)
          → m ≢ 10
          → tagged ch m (strip_marked ch b'@' false hashed) ≡ false
          → tagged ch m (strip_tags ch t) ≡ false
      after m ne k = tagged-rstrip m _ (
          tagged-lstrip m _ (tagged-collapse_lines m 0 _ ne (tagged-strip_links apart m false _ k)))
