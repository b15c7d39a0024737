-- ===== src/Api/Seeds.antt =====
-- api/cli.py: the administrator, the template and the tags that an installation starts with.
pub mod Again
use telegram_cms.Prelude.{
  ℕ, suc, Text, codes, text_eq, Bool, true, false, not, ◌||◌, Option, none, some, List, [], ◌∷◌,
  ◌++◌, any, is_empty, if◌then◌else◌,
}
use telegram_cms.Enums.{Role}
use telegram_cms.Models.{Admin, Tag, Template}
use telegram_cms.World.{Db}
use telegram_cms.Env.{Env}
use telegram_cms.Worker.Normalize.{default_template_body}

pub record Seed : Type 0 where
  pub slug : Text
  pub label : Text
  pub color : Text

abbrev pub default_tags : List Seed
default_tags =
    record { slug = codes "news"; label = codes "News"; color = codes "#1f77b4" }
    ∷ record { slug = codes "tech"; label = codes "Tech"; color = codes "#17becf" }
    ∷ record { slug = codes "crypto"; label = codes "Crypto"; color = codes "#f7931a" }
    ∷ record { slug = codes "business"; label = codes "Business"; color = codes "#2ca02c" }
    ∷ record { slug = codes "breaking"; label = codes "Breaking"; color = codes "#d62728" }
    ∷ record { slug = codes "culture"; label = codes "Culture"; color = codes "#9467bd" }
    ∷ record { slug = codes "sports"; label = codes "Sports"; color = codes "#e377c2" }
    ∷ []

abbrev pub has_username : Text → Db → Bool
has_username name db = any (λ (a : Admin). text_eq a.username name) db.admins

abbrev pub has_template : Text → Db → Bool
has_template name db = any (λ (t : Template). text_eq t.name name) db.templates

abbrev pub has_slug : Text → List Tag → Bool
has_slug slug = any (λ (t : Tag). text_eq t.slug slug)

-- `hash_password` is argon2's.
abbrev pub seeded_admin : Env → (Text → Text) → ℕ → Db → Admin
seeded_admin e hash_password now db = record {
  id = db.sequence;
  username = e.seed_admin_username;
  password_hash = hash_password e.seed_admin_password;
  role = Role.super_admin;
  tg_user_id = none;
  created_at = now;
  disabled_at = none;
}

unfoldable pub seed_admin : Env → (Text → Text) → ℕ → Db → Db
seed_admin e hash_password now db =
    if is_empty e.seed_admin_username || is_empty e.seed_admin_password
    then db
    else if has_username e.seed_admin_username db
    then db
    else record db {
      admins = db.admins ++ (seeded_admin e hash_password now db ∷ []);
      sequence = suc db.sequence;
    }

abbrev pub default_name : Text
default_name = codes "Default"

abbrev pub seeded_template : ℕ → Db → Template
seeded_template now db = record {
  id = db.sequence;
  name = default_name;
  body = default_template_body;
  created_at = now;
}

unfoldable pub seed_template : ℕ → Db → Db
seed_template now db = if has_template default_name db then db else record db {
  templates = db.templates ++ (seeded_template now db ∷ []);
  sequence = suc db.sequence;
}

abbrev pub seeded_tag : ℕ → Seed → Db → Tag
seeded_tag now s db = record {
  id = db.sequence;
  slug = s.slug;
  label = s.label;
  color = some s.color;
  created_at = now;
}

-- `existing` are the tags that were there at the query.
unfoldable pub seed_tag : List Tag → ℕ → Seed → Db → Db
seed_tag existing now s db =
    if has_slug s.slug existing
    then db
    else record db { tags = db.tags ++ (seeded_tag now s db ∷ []); sequence = suc db.sequence }

unfoldable pub seed_tags : List Tag → ℕ → List Seed → Db → Db
seed_tags existing now [] db = db
seed_tags existing now (s ∷ rest) db = seed_tags existing now rest (seed_tag existing now s db)

unfoldable pub seed_defaults : ℕ → Db → Db
unfolding seed_template seed_tags seed_tag
seed_defaults now db = seed_tags db.tags now default_tags (seed_template now db)

unfoldable pub seed_all : Env → (Text → Text) → ℕ → Db → Db
seed_all e hash_password now db = seed_defaults now (seed_admin e hash_password now db)
