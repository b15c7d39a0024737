-- ===== src/Api/Tags.antt =====
-- api/routers/tags.py: the tags, with their slugs.
pub mod Removal
pub mod Slugs
use telegram_cms.Prelude.{
  ℕ, suc, Text, text_eq, Bool, true, false, not, ◌&&◌, ◌||◌, leb, take, any, is_empty, [], ◌∷◌,
  ◌++◌, if◌then◌else◌, Option, none, some, List, map, keep, or_else, modify, ◌==◌, elem,
}
use telegram_cms.Models.{Tag, Post, SourceChannelTag}
use telegram_cms.World.{Db, http, Result, ok, err, get_tag}
use telegram_cms.Env.{Env}

pub record TagUpdate : Type 0 where
  pub label : Option Text
  pub color : Option Text

pub record TagCreate : Type 0 where
  pub slug : Text
  pub label : Text
  pub color : Option Text

-- `[a-z0-9]`
abbrev pub is_slug_char : ℕ → Bool
is_slug_char c = (leb b'a' c && leb c b'z') || (leb b'0' c && leb c b'9')

-- `re.sub(r"[^a-z0-9]+", "-", …)`; the test says whether the character before was replaced.
pub dash_runs : Bool → Text → Text
dash_runs replaced [] = []
dash_runs replaced (c ∷ cs) =
    let rest = dash_runs (not (is_slug_char c)) cs in
    if is_slug_char c then c ∷ rest else if replaced then rest else b'-' ∷ rest

pub drop_dashes : Text → Text
drop_dashes [] = []
drop_dashes (c ∷ cs) = let rest = drop_dashes cs in if c == b'-' then rest else c ∷ cs

pub trim_end : Text → Text
trim_end [] = []
trim_end (c ∷ cs) = let rest = trim_end cs in if (c == b'-') && is_empty rest then [] else c ∷ rest

pub slug_of : Env → Text → Text
unfolding dash_runs drop_dashes trim_end
slug_of e value = trim_end (drop_dashes (dash_runs false (e.lower value)))

unfoldable pub slugify : Env → Text → Result Text
unfolding slug_of
slugify e value =
    let slug = slug_of e value in
    if is_empty slug then err (http 400 "invalid slug") else ok (take 64 slug)

unfoldable pub add_tag : TagCreate → ℕ → Db → Result Text → Result Db
add_tag payload now db (err x) = err x
add_tag payload now db (ok slug) =
    if any (λ (t : Tag). text_eq t.slug slug) db.tags
    then err (http 409 "slug already exists")
    else ok (record db {
      tags =
          db.tags
          ++ (record {
            id = db.sequence;
            slug = slug;
            label = payload.label;
            color = payload.color;
            created_at = now;
          }
              ∷ []);
      sequence = suc db.sequence;
    })

unfoldable pub create_tag : Env → TagCreate → ℕ → Db → Result Db
unfolding add_tag
create_tag e payload now db = add_tag payload now db (slugify e payload.slug)

abbrev changed_tag : TagUpdate → Tag → Tag
changed_tag payload t = record t {
  label = or_else payload.label t.label;
  color = or_some payload.color t.color;
}
  where
    or_some : Option Text → Option Text → Option Text
    or_some none c = c
    or_some (some d) c = some d

unfoldable pub update_tag : ℕ → TagUpdate → Db → Result Db
update_tag i payload db = elim (get_tag i db) [
  | none ↦ err (http 404 "tag not found")
  | some t ↦ ok (record db { tags = modify (λ (t : Tag). t.id == i) (changed_tag payload) db.tags })
]

-- `array_remove`
abbrev pub array_remove : ℕ → List ℕ → List ℕ
array_remove i = keep (λ j. not (i == j))

-- The posts that hold the id, and then the row with its rows of the join table, which the database
-- deletes with it.
abbrev pub without_tag : ℕ → Db → Db
without_tag i db = record db {
  posts =
      modify (λ (p : Post). elem i p.tag_ids) (λ p. record p { tag_ids = array_remove i p.tag_ids })
        db.posts;
  tags = keep (λ (t : Tag). not (t.id == i)) db.tags;
  channel_tags = keep (λ (l : SourceChannelTag). not (l.tag_id == i)) db.channel_tags;
}

unfoldable pub delete_tag : ℕ → Db → Result Db
delete_tag i db = elim (get_tag i db) [
  | none ↦ err (http 404 "tag not found")
  | some t ↦ ok (without_tag i db)
]
