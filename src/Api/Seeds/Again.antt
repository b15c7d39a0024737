-- ===== src/Api/Seeds/Again.antt =====
-- A second run of the seeding of api/cli.py.
use telegram_cms.Prelude.{
  ℕ, Text, true, not, ◌&&◌, ◌||◌, List, [], ◌∷◌, any-append, is_empty, text_eq, text_eq_refl, ◌≡◌,
  ◌∙◌, ap, refl, All, arith,
}
use telegram_cms.Models.{Admin, Tag, Template}
use telegram_cms.World.{Db}
use telegram_cms.Api.Seeds.{
  Seed, seeded_tag, seeded_template, seeded_admin, has_slug, has_username, has_template,
  default_name, default_tags, seed_admin, seed_template, seed_tag, seed_tags, seed_defaults,
  seed_all,
}
use telegram_cms.Env.{Env}

-- Nothing with a slug is lost.
abbrev KeepsSlugs : List Tag → List Tag → Type 0
KeepsSlugs ts us = (slug : Text) → has_slug slug ts ≡ true → has_slug slug us ≡ true

module _ (existing : List Tag) (now : ℕ) where
  -- The tags that are there are not added.
  seed_tags-present :
      (ss : List Seed) (db : Db)
      → All (λ (s : Seed). has_slug s.slug existing ≡ true) ss
      → seed_tags existing now ss db ≡ db
  unfolding seed_tags seed_tag
  seed_tags-present [] db h = refl
  seed_tags-present (s ∷ ss) db h = rw (h.0) (seed_tags-present ss db h.1)

  seed_tag-tags :
      (s : Seed) (db : Db) (slug : Text)
      → has_slug slug (seed_tag existing now s db).tags
        ≡ (has_slug slug db.tags || (not (has_slug s.slug existing) && text_eq s.slug slug))
  unfolding seed_tag
  seed_tag-tags s db slug =
      ground
        (arith, any-append (λ (u : Tag). text_eq u.slug slug) db.tags (seeded_tag now s db ∷ []))

  seed_tag-KeepsSlugs : (s : Seed) (db : Db) → KeepsSlugs db.tags (seed_tag existing now s db).tags
  seed_tag-KeepsSlugs s db slug h = seed_tag-tags s db slug ∙ ground (arith, h)

  seed_tags-KeepsSlugs :
      (ss : List Seed) (db : Db) → KeepsSlugs db.tags (seed_tags existing now ss db).tags
  unfolding seed_tags
  seed_tags-KeepsSlugs [] db slug h = h
  seed_tags-KeepsSlugs (s ∷ ss) db slug h =
      seed_tags-KeepsSlugs ss (seed_tag existing now s db) slug (seed_tag-KeepsSlugs s db slug h)

  -- Every seed's tag is there after the seeding.
  seed_tags-slugs :
      (ss : List Seed) (db : Db)
      → KeepsSlugs existing db.tags
      → All (λ (s : Seed). has_slug s.slug (seed_tags existing now ss db).tags ≡ true) ss
  unfolding seed_tags
  seed_tags-slugs [] db h = tt
  seed_tags-slugs (s ∷ ss) db h = (
    seed_tags-KeepsSlugs ss (seed_tag existing now s db) s.slug
        (seed_tag-tags s db s.slug ∙ ground (arith, h s.slug, text_eq_refl s.slug)),
    seed_tags-slugs ss (seed_tag existing now s db)
        (λ slug k. seed_tag-KeepsSlugs s db slug (h slug k)),
  )

  seed_tags-admins : (ss : List Seed) (db : Db) → (seed_tags existing now ss db).admins ≡ db.admins
  unfolding seed_tags seed_tag
  seed_tags-admins [] db = refl
  seed_tags-admins (s ∷ ss) db = seed_tags-admins ss _ ∙ ground arith

  seed_tags-templates :
      (ss : List Seed) (db : Db) → (seed_tags existing now ss db).templates ≡ db.templates
  unfolding seed_tags seed_tag
  seed_tags-templates [] db = refl
  seed_tags-templates (s ∷ ss) db = seed_tags-templates ss _ ∙ ground arith

seed_template-has_template :
    (now : ℕ) (db : Db) → has_template default_name (seed_template now db) ≡ true
unfolding seed_template
seed_template-has_template now db = ground (
  arith,
  any-append (λ (t : Template). text_eq t.name default_name) db.templates
      (seeded_template now db ∷ []),
)

seed_template-present :
    (now : ℕ) (db : Db) → has_template default_name db ≡ true → seed_template now db ≡ db
unfolding seed_template
seed_template-present now db h = ground (arith, h)

seed_admin-has_username :
    (e : Env) (hash_password : Text → Text) (now : ℕ) (db : Db)
    → (is_empty e.seed_admin_username
        || (is_empty e.seed_admin_password
            || has_username e.seed_admin_username (seed_admin e hash_password now db)))
      ≡ true
unfolding seed_admin
seed_admin-has_username e hash_password now db = ground (
  arith,
  any-append (λ (a : Admin). text_eq a.username e.seed_admin_username) db.admins
      (seeded_admin e hash_password now db ∷ []),
  text_eq_refl e.seed_admin_username,
)

seed_admin-present :
    (e : Env) (hash_password : Text → Text) (now : ℕ) (db : Db)
    → (is_empty e.seed_admin_username
        || (is_empty e.seed_admin_password || has_username e.seed_admin_username db))
      ≡ true
    → seed_admin e hash_password now db ≡ db
unfolding seed_admin
seed_admin-present e hash_password now db h = ground (arith, h)

seed_template-admins : (now : ℕ) (db : Db) → (seed_template now db).admins ≡ db.admins
unfolding seed_template
seed_template-admins now db = ground arith

seed_template-tags : (now : ℕ) (db : Db) → (seed_template now db).tags ≡ db.tags
unfolding seed_template
seed_template-tags now db = ground arith

-- The administrator's and the template's names, and the tags' slugs, are taken.
record IsSeeded (e : Env) (db : Db) : Type 0 where
  admin :
      (is_empty e.seed_admin_username
        || (is_empty e.seed_admin_password || has_username e.seed_admin_username db))
      ≡ true
  template : has_template default_name db ≡ true
  tags : All (λ (s : Seed). has_slug s.slug db.tags ≡ true) default_tags

seed_all-IsSeeded :
    (e : Env) (hash_password : Text → Text) (now : ℕ) (db : Db)
    → IsSeeded e (seed_all e hash_password now db)
unfolding seed_all seed_defaults
seed_all-IsSeeded e hash_password now db = record {
  admin =
      rw (seed_tags-admins first.tags now default_tags second ∙ seed_template-admins now first)
        (seed_admin-has_username e hash_password now db);
  template =
      rw (seed_tags-templates first.tags now default_tags second)
        (seed_template-has_template now first);
  tags =
      seed_tags-slugs first.tags now default_tags second
        (λ slug h. rw (seed_template-tags now first) h);
}
  where
    first : Db
    first = seed_admin e hash_password now db

    second : Db
    second = seed_template now first

seed_all-IsSeeded_id :
    (e : Env) (hash_password : Text → Text) (now : ℕ) (db : Db)
    → IsSeeded e db
    → seed_all e hash_password now db ≡ db
unfolding seed_all seed_defaults
seed_all-IsSeeded_id e hash_password now db h =
    ap (seed_defaults now) (seed_admin-present e hash_password now db h.admin)
    ∙ (ap (seed_tags db.tags now default_tags) (seed_template-present now db h.template)
        ∙ seed_tags-present db.tags now default_tags db h.tags)

-- A second seeding, whenever it is run, changes nothing.
pub seed_all_again :
    (e : Env) (hash_password : Text → Text) (now later : ℕ) (db : Db)
    → seed_all e hash_password later (seed_all e hash_password now db)
      ≡ seed_all e hash_password now db
seed_all_again e hash_password now later db =
    seed_all-IsSeeded_id e hash_password later (seed_all e hash_password now db)
      (seed_all-IsSeeded e hash_password now db)
