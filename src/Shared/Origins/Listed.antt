-- ===== src/Shared/Origins/Listed.antt =====
-- The list of origins that a setting stands for.
use telegram_cms.Prelude.{
  ℕ, Text, codes, text_eq, text_eq→eq, Bool, true, false, not, ◌||◌, ◌&&◌, List, [], ◌∷◌, ◌++◌,
  ◌==◌, ==→eq, any, All, is_empty, if◌then◌else◌, arith, ◌≡◌, refl, ap, ◌∙◌, sym, Bool-cases, inl,
  inr,
}
use telegram_cms.Env.{Env, Chars}
use telegram_cms.Bot.Cards.{join}
use telegram_cms.Shared.Watermark.{strip, lstrip, rstrip}
use telegram_cms.Shared.Origins.{split, pieces, wildcard, cors_origin_list, allow_credentials}

abbrev has : ℕ → Text → Bool
has c = any (λ x. x == c)

module _ (c : ℕ) where
  split-whole : (t : Text) → has c t ≡ false → split c t ≡ t ∷ []
  split-whole [] h = refl
  split-whole (x ∷ xs) h = ground (arith, h, split-whole xs)

  split-append : (t rest : Text) → has c t ≡ false → split c (t ++ (c ∷ rest)) ≡ t ∷ split c rest
  split-append [] rest h = ground arith
  split-append (x ∷ xs) rest h = ground (arith, h, split-append xs rest)

module _ (ch : Chars) (c : ℕ) (solid : ch.is_space c ≡ false) where
  solid_at : (x : ℕ) → (x == c) ≡ true → ch.is_space x ≡ false
  solid_at x h = ap ch.is_space (==→eq x c h) ∙ solid

  has-lstrip : (t : Text) → has c (lstrip ch t) ≡ has c t
  unfolding lstrip
  has-lstrip [] = refl
  has-lstrip (x ∷ xs) = ground (arith, solid_at x, has-lstrip xs)

  has-rstrip : (t : Text) → has c (rstrip ch t) ≡ has c t
  unfolding rstrip
  has-rstrip [] = refl
  has-rstrip (x ∷ xs) = go (rstrip ch xs) (has-rstrip xs) (solid_at x)
    where
      go :
          (rest : Text)
          → has c rest ≡ has c xs
          → ((x == c) ≡ true → ch.is_space x ≡ false)
          → has c (if is_empty rest && ch.is_space x then [] else x ∷ rest) ≡ ((x == c) || has c xs)
      go [] h k = ground (arith, h, k)
      go (y ∷ ys) h k = ground (arith, h)

  has-strip : (t : Text) → has c (strip ch t) ≡ has c t
  unfolding strip
  has-strip t = has-rstrip (lstrip ch t) ∙ has-lstrip t

-- An origin that the list may hold: it is not empty, has no comma, and no white space at its ends.
pub record IsOrigin (e : Env) (t : Text) : Type 0 where
  pub full : is_empty t ≡ false
  pub whole : has b',' t ≡ false
  pub stripped : strip e.chars t ≡ t

module _ (e : Env) where
  pieces-one : (t : Text) (ts : List Text) → IsOrigin e t → pieces e (t ∷ ts) ≡ t ∷ pieces e ts
  unfolding pieces
  pieces-one t ts h = rw (h.stripped, h.full) refl

  pieces-join :
      (os : List Text) → All (IsOrigin e) os → pieces e (split b',' (join (codes ",") os)) ≡ os
  unfolding pieces strip lstrip rstrip
  pieces-join [] h = refl
  pieces-join (o ∷ []) h = rw (split-whole b',' o h.0.whole) (pieces-one o [] h.0)
  pieces-join (o ∷ p ∷ os) h =
      ap (pieces e) (split-append b',' o (join (codes ",") (p ∷ os)) h.0.whole)
      ∙ (pieces-one o (split b',' (join (codes ",") (p ∷ os))) h.0
          ∙ ap (λ ts. o ∷ ts) (pieces-join (p ∷ os) h.1))

  -- The special case of the wildcard is read like any other list.
  listed : e.chars.is_space b',' ≡ false → cors_origin_list e ≡ pieces e (split b',' e.cors_origins)
  unfolding cors_origin_list pieces
  listed solid = elim (Bool-cases (text_eq (strip e.chars e.cors_origins) wildcard)) [
    | inr other ↦ rw other refl
    | inl all ↦
        let alone = text_eq→eq (strip e.chars e.cors_origins) wildcard all in
        rw
          (
            all,
            split-whole b',' e.cors_origins
                (sym (has-strip e.chars b',' solid e.cors_origins) ∙ ap (has b',') alone),
            alone,
          )
          refl
  ]

-- Where a comma is no white space, origins that have no comma, are not empty and have no white space at their ends, and
-- are put into the setting with a comma between two, are the list that is read from it, also where the only one
-- is the wildcard; and credentials are allowed if none of them is the wildcard, and only then.
pub cors_origin_list-join :
    (e : Env) (os : List Text)
    → e.chars.is_space b',' ≡ false
    → All (IsOrigin e) os
    → e.cors_origins ≡ join (codes ",") os
    → (cors_origin_list e ≡ os) × (allow_credentials e ≡ not (any (text_eq wildcard) os))
unfolding allow_credentials
cors_origin_list-join e os solid h written =
    (listing, ap (λ ts. not (any (text_eq wildcard) ts)) listing)
  where
    listing : cors_origin_list e ≡ os
    listing = listed e solid ∙ (ap (λ t. pieces e (split b',' t)) written ∙ pieces-join e os h)
