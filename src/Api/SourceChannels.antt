-- ===== src/Api/SourceChannels.antt =====
-- api/routers/source_channels.py and api/routers/ai_settings.py: the source channels, their default tags and
-- their AI settings. The texts of the errors leave out the ids and the count that the code puts in.
pub mod Mirror
pub mod Requests
pub mod Removal
pub mod Turns
use telegram_cms.Prelude.{
  ℕ, suc, ℤ, int_eq, Text, text_or, Bool, true, false, not, ◌&&◌, ◌||◌, Option, none, some, List,
  [], ◌∷◌, ◌++◌, map, any, all, keep, modify, elem, is_empty, is_some, truthy, opt_or, or_else,
  ◌==◌, if◌then◌else◌,
}
use telegram_cms.Enums.{Policy, PostState, AiMode, state_in}
use telegram_cms.Models.{SourceChannel, SourceChannelTag, Post, PostEvent}
use telegram_cms.World.{
  Db, Exn, http, integrity_error, ai_transform, Result, ok, err, get_channel, get_tag, get_template,
}
use telegram_cms.Env.{Env}
use telegram_cms.Api.Schemas.{
  AiSettings, AiSettingsUpdate, SourceChannelCreate, SourceChannelUpdate, AiTestRequest,
}
use telegram_cms.Shared.Transform.{TransformResult, Options, transform_text}

-- `_TERMINAL_STATES`
abbrev pub terminal_states : List PostState
terminal_states = PostState.published ∷ PostState.rejected ∷ []

abbrev pub tag_link : ℕ → ℕ → SourceChannelTag
tag_link channel_id tag_id = record { source_channel_id = channel_id; tag_id = tag_id }

abbrev pub unlinked : ℕ → List SourceChannelTag → List SourceChannelTag
unlinked channel_id = keep (λ (l : SourceChannelTag). not (l.source_channel_id == channel_id))

abbrev repeats : List ℕ → Bool
repeats [] = false
repeats (t ∷ ts) = elem t ts || repeats ts

-- The rows are the primary key of their table: a tag that is given twice is an error of the database.
pub set_default_tag_links : ℕ → List ℕ → Db → Result Db
set_default_tag_links channel_id tag_ids db =
    if is_empty tag_ids
    then ok (record db { channel_tags = unlinked channel_id db.channel_tags })
    else if not (all (λ t. is_some (get_tag t db)) tag_ids)
    then err (http 400 "unknown tag ids")
    else if repeats tag_ids
    then err integrity_error
    else ok (record db {
      channel_tags = unlinked channel_id db.channel_tags ++ map (tag_link channel_id) tag_ids;
    })

-- The foreign key to the templates.
abbrev is_template : Option ℕ → Db → Bool
is_template none db = true
is_template (some i) db = is_some (get_template i db)

-- `payload.max_media_size_bytes or settings.media_max_size_default`
abbrev size_or : Option ℕ → ℕ → ℕ
size_or none d = d
size_or (some n) d = if n == 0 then d else n

abbrev pub new_channel : Env → SourceChannelCreate → ℕ → ℕ → SourceChannel
new_channel e payload i now = record {
  id = i;
  telegram_channel_id = payload.telegram_channel_id;
  title = payload.title;
  username = payload.username;
  ingestion_enabled = payload.ingestion_enabled;
  policy = payload.policy;
  default_tag_ids = payload.default_tag_ids;
  normalization_template_id = payload.normalization_template_id;
  max_media_size_bytes = size_or payload.max_media_size_bytes e.media_max_size_default;
  source_label = payload.source_label;
  ai_enabled = payload.ai.ai_enabled;
  ai_mode = payload.ai.ai_mode;
  ai_target_language = payload.ai.ai_target_language;
  ai_tone_prompt = payload.ai.ai_tone_prompt;
  ai_custom_system_prompt = payload.ai.ai_custom_system_prompt;
  watermark_enabled = payload.ai.watermark_enabled;
  watermark_text = payload.ai.watermark_text;
  strip_source_tags = payload.ai.strip_source_tags;
  created_at = now;
}

abbrev pub with_channel : Env → SourceChannelCreate → ℕ → Db → Db
with_channel e payload now db = record db {
  channels = db.channels ++ (new_channel e payload db.sequence now ∷ []);
  sequence = suc db.sequence;
}

-- The flush raises for a Telegram id that is taken, and for a template that is not there.
unfoldable pub create_channel : Env → SourceChannelCreate → ℕ → Db → Result Db
unfolding set_default_tag_links
create_channel e payload now db =
    if any (λ (c : SourceChannel). int_eq c.telegram_channel_id payload.telegram_channel_id)
        db.channels
      || not (is_template payload.normalization_template_id db)
    then err (http 409 "channel already exists")
    else set_default_tag_links db.sequence payload.default_tag_ids (with_channel e payload now db)

-- `setattr` of a column that may not be null: null is refused at the flush.
abbrev set_column {ℓ} : {A : Type ℓ} → Option (Option A) → A → A
set_column none a = a
set_column (some none) a = a
set_column (some (some b)) a = b

abbrev is_null {ℓ} : {A : Type ℓ} → Option (Option A) → Bool
is_null none = false
is_null (some none) = true
is_null (some (some b)) = false

abbrev has_null_ai : AiSettingsUpdate → Bool
has_null_ai u =
    is_null u.ai_enabled
    || (is_null u.ai_mode || (is_null u.watermark_enabled || is_null u.strip_source_tags))

abbrev has_null : SourceChannelUpdate → Bool
has_null u =
    is_null u.title
    || (is_null u.ingestion_enabled
        || (is_null u.policy || (is_null u.max_media_size_bytes || has_null_ai u.ai)))

abbrev pub set_ai : AiSettingsUpdate → SourceChannel → SourceChannel
set_ai u c = record c {
  ai_enabled = set_column u.ai_enabled c.ai_enabled;
  ai_mode = set_column u.ai_mode c.ai_mode;
  ai_target_language = or_else u.ai_target_language c.ai_target_language;
  ai_tone_prompt = or_else u.ai_tone_prompt c.ai_tone_prompt;
  ai_custom_system_prompt = or_else u.ai_custom_system_prompt c.ai_custom_system_prompt;
  watermark_enabled = set_column u.watermark_enabled c.watermark_enabled;
  watermark_text = or_else u.watermark_text c.watermark_text;
  strip_source_tags = set_column u.strip_source_tags c.strip_source_tags;
}

abbrev pub set_fields : SourceChannelUpdate → SourceChannel → SourceChannel
set_fields u c = set_ai u.ai (record c {
  title = set_column u.title c.title;
  username = or_else u.username c.username;
  ingestion_enabled = set_column u.ingestion_enabled c.ingestion_enabled;
  policy = set_column u.policy c.policy;
  normalization_template_id = or_else u.normalization_template_id c.normalization_template_id;
  max_media_size_bytes = set_column u.max_media_size_bytes c.max_media_size_bytes;
  source_label = or_else u.source_label c.source_label;
})

abbrev pub update_row : ℕ → (SourceChannel → SourceChannel) → Db → Db
update_row i f db = record db { channels = modify (λ (c : SourceChannel). c.id == i) f db.channels }

change_tags : ℕ → Option (Option (List ℕ)) → Db → Result Db
unfolding set_default_tag_links
change_tags i none db = ok db
change_tags i (some none) db = ok db
change_tags i (some (some tag_ids)) db =
    set_default_tag_links i tag_ids (update_row i (λ c. record c { default_tag_ids = tag_ids }) db)

unfoldable pub update_channel : ℕ → SourceChannelUpdate → Db → Result Db
unfolding change_tags
update_channel i payload db = elim (get_channel i db) [
  | none ↦ err (http 404 "source channel not found")
  | some c ↦
      if has_null payload || not (is_template (or_else payload.normalization_template_id none) db)
      then err integrity_error
      else change_tags i payload.default_tag_ids (update_row i (set_fields payload) db)
]

-- The posts of the channel that are neither published nor rejected.
abbrev pub is_active : ℕ → Post → Bool
is_active channel_id p =
    (p.source_channel_id == channel_id) && not (state_in p.state terminal_states)

abbrev pub is_of_channel : ℕ → List Post → PostEvent → Bool
is_of_channel channel_id posts v =
    any (λ (p : Post). (p.id == v.post_id) && (p.source_channel_id == channel_id)) posts

-- The row, and what the database deletes with it: its posts, their events, its links.
abbrev pub without_channel : ℕ → Db → Db
without_channel i db = record db {
  channels = keep (λ (c : SourceChannel). not (c.id == i)) db.channels;
  channel_tags = unlinked i db.channel_tags;
  posts = keep (λ (p : Post). not (p.source_channel_id == i)) db.posts;
  events = keep (λ v. not (is_of_channel i db.posts v)) db.events;
}

unfoldable pub delete_channel : ℕ → Db → Result Db
delete_channel i db = elim (get_channel i db) [
  | none ↦ err (http 404 "source channel not found")
  | some c ↦
      if any (is_active i) db.posts
      then err (http 409 "channel has active posts")
      else ok (without_channel i db)
]

unfoldable pub update_ai_settings : ℕ → AiSettingsUpdate → Db → Result Db
update_ai_settings i payload db = elim (get_channel i db) [
  | none ↦ err (http 404 "source channel not found")
  | some c ↦
      if has_null_ai payload then err integrity_error else ok (update_row i (set_ai payload) db)
]

-- `a or b` on two optional texts.
abbrev first_text : Option Text → Option Text → Option Text
first_text a b = if truthy a then a else b

abbrev as_http : Result TransformResult → Result TransformResult
as_http (err (ai_transform text)) = err (http 502 "transformation failed")
as_http r = r

-- The dry run: what the request leaves empty is the channel's.
unfoldable pub test_ai_transform : Env → ℕ → AiTestRequest → Db → Result TransformResult
test_ai_transform e i payload db =
    if not e.ai_enabled
    then err (http 400 "AI transformation is globally disabled")
    else if is_empty e.ai_api_key
    then err (http 400 "AI_API_KEY is not configured")
    else elim (get_channel i db) [
      | none ↦ err (http 404 "source channel not found")
      | some c ↦ as_http (
          transform_text e payload.text (record {
            mode = payload.mode;
            target_language = first_text payload.target_language c.ai_target_language;
            tone_prompt = first_text payload.tone_prompt c.ai_tone_prompt;
            custom_system_prompt =
                first_text payload.custom_system_prompt c.ai_custom_system_prompt;
            model = none;
            max_tokens = none;
            timeout = none;
          }))
    ]
