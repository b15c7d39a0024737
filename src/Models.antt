-- ===== src/Models.antt =====
-- shared/models.py: the rows of the tables, and the part of shared/config.py that the modelled code
-- reads. Times are milliseconds; row ids are naturals; Telegram's ids of chats and users may be
-- negative. A JSON payload of `post_events` is one constructor for each shape that the code writes.
use telegram_cms.Prelude.{
  ℕ, ◌*◌, ℤ, Text, codes, is_empty, text_eq, text_or, Bool, not, ◌||◌, List, ◌++◌, Option,
  if◌then◌else◌,
}
use telegram_cms.Enums.{Role, Policy, PostState, AiMode, EventAction, MediaType}

pub record Admin : Type 0 where
  pub id : ℕ
  pub username : Text
  pub password_hash : Text
  pub role : Role
  pub tg_user_id : Option ℤ
  pub created_at : ℕ
  pub disabled_at : Option ℕ

pub record Tag : Type 0 where
  pub id : ℕ
  pub slug : Text
  pub label : Text
  pub color : Option Text
  pub created_at : ℕ

pub record Template : Type 0 where
  pub id : ℕ
  pub name : Text
  pub body : Text
  pub created_at : ℕ

pub record SourceChannel : Type 0 where
  pub id : ℕ
  pub telegram_channel_id : ℤ
  pub title : Text
  pub username : Option Text
  pub ingestion_enabled : Bool
  pub policy : Policy
  pub default_tag_ids : List ℕ
  pub normalization_template_id : Option ℕ
  pub max_media_size_bytes : ℕ
  pub source_label : Option Text
  pub ai_enabled : Bool
  pub ai_mode : AiMode
  pub ai_target_language : Option Text
  pub ai_tone_prompt : Option Text
  pub ai_custom_system_prompt : Option Text
  pub watermark_enabled : Bool
  pub watermark_text : Option Text
  pub strip_source_tags : Bool
  pub created_at : ℕ

pub record SourceChannelTag : Type 0 where
  pub source_channel_id : ℕ
  pub tag_id : ℕ

-- The dictionary that the ingestion writes for a media item. `file` is empty where it was omitted.
pub record MediaRef : Type 0 where
  pub kind : MediaType
  pub file : Text
  pub size : ℕ
  pub mime : Option Text
  pub omitted : Bool

pub record Post : Type 0 where
  pub id : ℕ
  pub source_channel_id : ℕ
  pub source_message_id : ℕ
  pub raw_text : Option Text
  pub raw_media_refs : List MediaRef
  pub received_at : ℕ
  pub state : PostState
  pub normalized_text : Option Text
  pub ai_transformed_text : Option Text
  pub media_paths : List Text
  pub tag_ids : List ℕ
  pub scheduled_for : Option ℕ
  pub published_message_id : Option ℕ
  pub published_at : Option ℕ
  pub dedupe_hash : Option Text
  pub draft_message_id : Option ℕ

pub data Payload : Type 0 where
  has_media : Bool → Payload
  has_media_omitted : Bool → Bool → Payload
  error : Text → Payload
  dedupe_hash : Text → Payload
  dedupe_race : Text → Payload
  published_to : ℕ → ℤ → Payload
  normalized : Payload
  ai_result : Text → AiMode → ℕ → ℕ → ℕ → Payload
  tag_ids : List ℕ → Payload
  tags_scheduled : List ℕ → ℕ → Payload
  inline : ℤ → Payload
  draft_card : ℤ → ℕ → Payload

pub record PostEvent : Type 0 where
  pub post_id : ℕ
  pub actor_admin_id : Option ℕ
  pub action : EventAction
  pub payload : Payload
  pub created_at : ℕ

-- `hash` is the column `dedupe_hash`.
pub record PublishedDedupe : Type 0 where
  pub hash : Text
  pub published_at : ℕ

-- The settings that the modelled code reads. The spacing is in milliseconds.
pub record Settings : Type 0 where
  pub dedupe_lookback_days : ℕ
  pub audit_retention_days : ℕ
  pub media_retention_days : ℕ
  pub publish_spacing : ℕ
  pub media_max_size_default : ℕ
  pub destination_channel_id : ℤ
  pub editor_group_id : ℤ
  pub media_dir : Text
  pub app_domain : Text
  pub cors_origins : Text
  pub access_token_ttl_minutes : ℕ
  pub refresh_token_ttl_days : ℕ
  pub seed_admin_username : Text
  pub seed_admin_password : Text
  pub ai_enabled : Bool
  pub ai_api_key : Text
  pub ai_model : Text
  pub ai_max_tokens : ℕ
  pub ai_timeout_seconds : ℕ

-- timedelta(days=n)
abbrev pub days : ℕ → ℕ
days n = n * 86400000

-- `app_domain not in ("localhost", "")`
abbrev pub is_production : Settings → Bool
is_production s = not (text_eq s.app_domain (codes "localhost") || is_empty s.app_domain)

-- `Settings.public_web_url`
abbrev pub public_web_url : Settings → Text
public_web_url s =
    (if is_production s then codes "https" else codes "http")
    ++ (codes "://" ++ text_or s.app_domain (codes "localhost"))
