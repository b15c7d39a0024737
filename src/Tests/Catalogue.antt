-- ===== src/Tests/Catalogue.antt =====
-- The requests on channels, tags and templates, the seeding and the health check, on the sample installation.
use telegram_cms.Prelude.{
  ◌==◌, Text, true, false, Option, none, some, [], ◌∷◌, codes, arith, ◌≡◌, refl,
}
use telegram_cms.Enums.{PostState}
use telegram_cms.Models.{Template}
use telegram_cms.World.{Db, ok}
use telegram_cms.Shared.Health.{ExtraCheck, raised, healthz}
use telegram_cms.Shared.Health.Status.{healthz-status}
use telegram_cms.Userbot.Watchdog.{is_mtproto_healthy}
use telegram_cms.Userbot.Watchdog.Reported.{userbot_healthz}
use telegram_cms.Worker.Normalize.{template_body, default_template_body}
use telegram_cms.Api.Schemas.{AiSettingsUpdate, SourceChannelUpdate}
use telegram_cms.Api.SourceChannels.{update_channel}
use telegram_cms.Api.SourceChannels.Mirror.{IsMirrored}
use telegram_cms.Api.SourceChannels.Requests.{Request, handle, handle-IsMirrored}
use telegram_cms.Api.Tags.{slugify}
use telegram_cms.Api.Tags.Slugs.{is_slug, slugify_again}
use telegram_cms.Api.Templates.{delete_template, forget_in, without_template}
use telegram_cms.Api.Templates.Fallback.{delete_template-template_body}
use telegram_cms.Api.Seeds.{seed_all}
use telegram_cms.Api.Seeds.Again.{seed_all_again}
use telegram_cms.Tests.Samples.{env, db, post, channel}
use telegram_cms.Tests.Watching.{alive}

abbrev linked : Db
linked = record db { channel_tags = record { source_channel_id = 1; tag_id = 1 } ∷ [] }

linked-IsMirrored : IsMirrored linked
linked-IsMirrored = record {
  mirrors = (λ t. ground arith, tt);
  made = (omega arith, tt);
  linked = λ j t above. ground (arith, above);
}

abbrev no_ai : AiSettingsUpdate
no_ai = record {
  ai_enabled = none;
  ai_mode = none;
  ai_target_language = none;
  ai_tone_prompt = none;
  ai_custom_system_prompt = none;
  watermark_enabled = none;
  watermark_text = none;
  strip_source_tags = none;
}

abbrev no_tags : SourceChannelUpdate
no_tags = record {
  title = none;
  username = none;
  ingestion_enabled = none;
  policy = none;
  default_tag_ids = some (some []);
  normalization_template_id = none;
  max_media_size_bytes = none;
  source_label = none;
  ai = no_ai;
}

abbrev untagged : Db
untagged = record db { channels = record channel { default_tag_ids = [] } ∷ [] }

no_tags-ok : handle env (Request.change 1 no_tags) linked ≡ ok untagged
unfolding handle update_channel
no_tags-ok = refl

handle-IsMirrored_example : IsMirrored untagged
handle-IsMirrored_example =
    handle-IsMirrored env (Request.change 1 no_tags) linked untagged no_tags-ok linked-IsMirrored

-- The channel's post was published.
abbrev finished : Db
finished = record linked { posts = record post { state = PostState.published } ∷ [] }

slugify-ok : slugify env (codes "--breaking  news!") ≡ ok (codes "breaking-news")
unfolding slugify
slugify-ok = refl

slugify_again_example :
    (is_slug true (codes "breaking-news") ≡ true)
    × (slugify env (codes "breaking-news") ≡ ok (codes "breaking-news"))
slugify_again_example =
    slugify_again env (codes "--breaking  news!") (codes "breaking-news") slugify-ok (omega arith)
      refl

abbrev plain : Template
plain = record { id = 3; name = codes "Plain"; body = codes "{{ text }}"; created_at = 0 }

abbrev rendered : Db
rendered = record db {
  templates = plain ∷ [];
  channels = record channel { normalization_template_id = some 3 } ∷ [];
}

rendered-ok : delete_template 3 rendered ≡ ok (without_template 3 rendered)
unfolding delete_template
rendered-ok = refl

delete_template-template_body_example :
    template_body
      (forget_in 3 (record channel { normalization_template_id = some 3 }))
      (without_template 3 rendered)
    ≡ default_template_body
delete_template-template_body_example =
    delete_template-template_body 3 rendered (without_template 3 rendered)
      (record channel { normalization_template_id = some 3 }) rendered-ok

seed_all_again_example :
    seed_all env (λ p. p) 9 (seed_all env (λ p. p) 4 db) ≡ seed_all env (λ p. p) 4 db
seed_all_again_example = seed_all_again env (λ p. p) 4 9 db

abbrev telegram_down : ExtraCheck
telegram_down = record { name = codes "mtproto"; result = raised (codes "OSError") }

healthz-status_example : ((healthz none none (telegram_down ∷ [])).status == 200) ≡ false
healthz-status_example = healthz-status none none (telegram_down ∷ [])

abbrev reached : Option Text
reached = none

userbot-ok : (userbot_healthz env 1060000 alive.live reached reached).status ≡ 200
unfolding userbot_healthz healthz is_mtproto_healthy
userbot-ok = refl
