-- ===== src/Api/Schemas.antt =====
-- api/schemas.py: the requests on source channels and their AI settings. The bounds on lengths are
-- pydantic's and stand before the handlers.
use telegram_cms.Prelude.{ℕ, ℤ, Text, Bool, Option, List}
use telegram_cms.Enums.{Policy, AiMode}

-- The eight columns that the requests of the two routers share.
pub record AiSettings : Type 0 where
  pub ai_enabled : Bool
  pub ai_mode : AiMode
  pub ai_target_language : Option Text
  pub ai_tone_prompt : Option Text
  pub ai_custom_system_prompt : Option Text
  pub watermark_enabled : Bool
  pub watermark_text : Option Text
  pub strip_source_tags : Bool

-- A field of a partial request: `none` where it is unset, `some none` where it is null.
pub record AiSettingsUpdate : Type 0 where
  pub ai_enabled : Option (Option Bool)
  pub ai_mode : Option (Option AiMode)
  pub ai_target_language : Option (Option Text)
  pub ai_tone_prompt : Option (Option Text)
  pub ai_custom_system_prompt : Option (Option Text)
  pub watermark_enabled : Option (Option Bool)
  pub watermark_text : Option (Option Text)
  pub strip_source_tags : Option (Option Bool)

pub record SourceChannelCreate : Type 0 where
  pub telegram_channel_id : ℤ
  pub title : Text
  pub username : Option Text
  pub ingestion_enabled : Bool
  pub policy : Policy
  pub default_tag_ids : List ℕ
  pub normalization_template_id : Option ℕ
  pub max_media_size_bytes : Option ℕ
  pub source_label : Option Text
  pub ai : AiSettings

pub record SourceChannelUpdate : Type 0 where
  pub title : Option (Option Text)
  pub username : Option (Option Text)
  pub ingestion_enabled : Option (Option Bool)
  pub policy : Option (Option Policy)
  pub default_tag_ids : Option (Option (List ℕ))
  pub normalization_template_id : Option (Option ℕ)
  pub max_media_size_bytes : Option (Option ℕ)
  pub source_label : Option (Option Text)
  pub ai : AiSettingsUpdate

pub record AiTestRequest : Type 0 where
  pub text : Text
  pub mode : AiMode
  pub target_language : Option Text
  pub tone_prompt : Option Text
  pub custom_system_prompt : Option Text
