-- ===== src/Shared/Fingerprint.antt =====
-- shared/dedupe.py: the dedupe hash of a post, from its text and its media.
use telegram_cms.Prelude.{
  ℕ, Text, codes, Bool, true, false, not, ◌&&◌, ◌||◌, Option, List, [], ◌∷◌, ◌++◌, map, ◌==◌, ltb,
  if◌then◌else◌, opt_or,
}
use telegram_cms.Enums.{MediaType, media_value}
use telegram_cms.Models.{MediaRef}
use telegram_cms.Env.{Env}

-- `" ".join(text.split())`: the words, with one space between two of them. The flag says that a word
-- was begun before, and the other that white was read since.
join_words : (ℕ → Bool) → Bool → Bool → Text → Text
join_words white begun gap [] = []
join_words white begun gap (x ∷ xs) =
    let skipped = join_words white begun true xs in
    let spaced = 32 ∷ x ∷ join_words white true false xs in
    let joined = x ∷ join_words white true false xs in
    if white x then skipped else if begun && gap then spaced else joined

-- `.strip()` has nothing left to take, since a word has no white character.
unfoldable pub clean_text : Env → Text → Text
unfolding join_words
clean_text e t = e.lower (join_words e.is_space false false t)

unfoldable pub text_fingerprint : Env → Option Text → Text
text_fingerprint e t = e.sha256 (clean_text e (opt_or t []))

-- The order of strings, by code points.
abbrev pub text_lt : Text → Text → Bool
text_lt xs [] = false
text_lt [] (y ∷ ys) = true
text_lt (x ∷ xs) (y ∷ ys) = ltb x y || ((x == y) && text_lt xs ys)

abbrev kind_lt : MediaType → MediaType → Bool
kind_lt a b = text_lt (media_value a) (media_value b)

-- The sort key is the pair of the type and the size.
abbrev pub key_lt : MediaRef → MediaRef → Bool
key_lt a b = kind_lt a.kind b.kind || (not (kind_lt b.kind a.kind) && ltb a.size b.size)

-- `sorted` is stable: an item goes before those whose key is not below its own.
unfoldable pub insert_ref : MediaRef → List MediaRef → List MediaRef
insert_ref m [] = m ∷ []
insert_ref m (n ∷ ns) = if key_lt n m then n ∷ insert_ref m ns else m ∷ n ∷ ns

unfoldable pub sort_refs : List MediaRef → List MediaRef
sort_refs [] = []
sort_refs (m ∷ ms) = insert_ref m (sort_refs ms)

-- `f"{mtype}:{size}:{mime}"`
unfoldable pub media_part : Env → MediaRef → Text
media_part e m =
    media_value m.kind ++ (codes ":" ++ (e.decimal m.size ++ (codes ":" ++ opt_or m.mime [])))

join_bar : List Text → Text
join_bar [] = []
join_bar (t ∷ []) = t
join_bar (t ∷ u ∷ rest) = t ++ (codes "|" ++ join_bar (u ∷ rest))

unfoldable pub media_fingerprint : Env → List MediaRef → Text
unfolding sort_refs media_part join_bar
media_fingerprint e refs = e.sha256 (join_bar (map (media_part e) (sort_refs refs)))

unfoldable pub compute_dedupe_hash : Env → Option Text → List MediaRef → Text
compute_dedupe_hash e t refs =
    e.sha256 (text_fingerprint e t ++ (codes ":" ++ media_fingerprint e refs))
