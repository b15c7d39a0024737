-- ===== src/Shared/Origins.antt =====
-- shared/config.py: the list of CORS origins; and what api/main.py derives from it.
pub mod Listed
use telegram_cms.Prelude.{
  ℕ, Text, codes, text_eq, Bool, not, List, [], ◌∷◌, ◌==◌, any, keep, map, is_empty, if◌then◌else◌,
}
use telegram_cms.Env.{Env}
use telegram_cms.Shared.Watermark.{strip}

-- `cons` on the first piece.
abbrev pub put : ℕ → List Text → List Text
put x [] = (x ∷ []) ∷ []
put x (t ∷ ts) = (x ∷ t) ∷ ts

-- `text.split(c)`: one piece more than there are separators.
abbrev pub split : ℕ → Text → List Text
split c [] = [] ∷ []
split c (x ∷ xs) = let rest = split c xs in if x == c then [] ∷ rest else put x rest

-- `[o.strip() for o in pieces if o.strip()]`
unfoldable pub pieces : Env → List Text → List Text
pieces e ts = keep (λ t. not (is_empty t)) (map (strip e.chars) ts)

abbrev pub wildcard : Text
wildcard = codes "*"

unfoldable pub cors_origin_list : Env → List Text
unfolding pieces
cors_origin_list e =
    if text_eq (strip e.chars e.cors_origins) wildcard
    then wildcard ∷ []
    else pieces e (split b',' e.cors_origins)

-- `"*" not in origins`
unfoldable pub allow_credentials : Env → Bool
allow_credentials e = not (any (text_eq wildcard) (cors_origin_list e))
