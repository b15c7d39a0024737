-- ===== src/Shared/Watermark.antt =====
-- shared/transform.py, `apply_watermark`: the tags of the source are cut out and the brand is put on.
-- The three regular expressions are walks with a flag for being inside a match.
pub mod Untagged
use telegram_cms.Prelude.{
  ℕ, zero, suc, ◌+◌, Text, codes, Bool, true, false, not, ◌&&◌, ◌||◌, Option, none, some, List, [],
  ◌∷◌, ◌++◌, ◌==◌, is_empty, if◌then◌else◌, truthy, opt_or, ltb,
}
use telegram_cms.Env.{Chars}

module _ (ch : Chars) where
  unfoldable pub starts_word : Text → Bool
  starts_word [] = false
  starts_word (x ∷ xs) = ch.is_word x

  -- `re.sub(mark + r"\\w+", "")`
  unfoldable pub strip_marked : ℕ → Bool → Text → Text
  strip_marked m inside [] = []
  strip_marked m inside (x ∷ xs) =
      let cut = strip_marked m true xs in
      let kept = x ∷ strip_marked m false xs in
      if (inside && ch.is_word x) || ((x == m) && starts_word xs) then cut else kept

  -- The text begins with `prefix` and a character that is not white.
  abbrev pub begins : Text → Text → Bool
  begins [] [] = false
  begins [] (x ∷ xs) = not (ch.is_space x)
  begins (p ∷ ps) [] = false
  begins (p ∷ ps) (x ∷ xs) = (p == x) && begins ps xs

  unfoldable pub link_here : Text → Bool
  link_here t = begins (codes "https://t.me/") t || begins (codes "http://t.me/") t

  -- `re.sub(r"https?://t\\.me/\\S+", "")`: a match runs to the next white character.
  unfoldable pub strip_links : Bool → Text → Text
  strip_links inside [] = []
  strip_links inside (x ∷ xs) =
      let cut = strip_links true xs in
      let kept = x ∷ strip_links false xs in
      if (inside && not (ch.is_space x)) || link_here (x ∷ xs) then cut else kept

  unfoldable pub lstrip : Text → Text
  lstrip [] = []
  lstrip (x ∷ xs) = if ch.is_space x then lstrip xs else x ∷ xs

  unfoldable pub rstrip : Text → Text
  rstrip [] = []
  rstrip (x ∷ xs) = let rest = rstrip xs in if is_empty rest && ch.is_space x then [] else x ∷ rest

  unfoldable pub strip : Text → Text
  unfolding lstrip rstrip
  strip t = rstrip (lstrip t)

-- `re.sub(r"\\n{3,}", "\\n\\n")`: at most two line feeds of a run stay; the number is how many have.
unfoldable pub collapse_lines : ℕ → Text → Text
collapse_lines n [] = []
collapse_lines n (x ∷ xs) =
    let text = x ∷ collapse_lines 0 xs in
    let kept = x ∷ collapse_lines (n + 1) xs in
    let cut = collapse_lines n xs in if x == 10 then (if ltb n 2 then kept else cut) else text

unfoldable pub strip_tags : Chars → Text → Text
unfolding strip_marked strip_links collapse_lines strip
strip_tags ch t = strip ch (
    collapse_lines 0
      (strip_links ch false (strip_marked ch b'@' false (strip_marked ch b'#' false t))))

unfoldable pub apply_watermark : Chars → Text → Option Text → Bool → Text
unfolding strip_tags rstrip
apply_watermark ch text watermark strip_source_tags =
    let result = if strip_source_tags then strip_tags ch text else text in
    if truthy watermark then rstrip ch result ++ (codes "\n\n" ++ opt_or watermark []) else result
