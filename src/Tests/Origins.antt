-- ===== src/Tests/Origins.antt =====
-- The origins of a small installation.
use telegram_cms.Prelude.{codes, List, [], ◌∷◌, Text, ◌≡◌, refl, any, not, text_eq}
use telegram_cms.Env.{Env}
use telegram_cms.Shared.Origins.{cors_origin_list, allow_credentials, wildcard}
use telegram_cms.Shared.Origins.Listed.{IsOrigin, cors_origin_list-join}
use telegram_cms.Shared.Watermark.{strip, lstrip, rstrip}
use telegram_cms.Tests.Samples.{env, settings}

abbrev two : Env
two = record env { settings = record settings { cors_origins = codes "http://a,http://b" } }

abbrev origins : List Text
origins = codes "http://a" ∷ codes "http://b" ∷ []

first-IsOrigin : IsOrigin two (codes "http://a")
unfolding strip lstrip rstrip
first-IsOrigin = record { full = refl; whole = refl; stripped = refl }

second-IsOrigin : IsOrigin two (codes "http://b")
unfolding strip lstrip rstrip
second-IsOrigin = record { full = refl; whole = refl; stripped = refl }

cors_origin_list-join_example :
    (cors_origin_list two ≡ origins)
    × (allow_credentials two ≡ not (any (text_eq wildcard) origins))
cors_origin_list-join_example =
    cors_origin_list-join two origins refl (first-IsOrigin, (second-IsOrigin, tt)) refl
