-- ===== src/Bot/Cards.antt =====
-- bot/cards.py: the draft card's text and its inline keyboard.
use telegram_cms.Prelude.{
  ℕ, Text, codes, take, length, ltb, Option, none, some, List, [], ◌∷◌, ◌++◌, map, any, elem, keep,
  opt_or, text_or, if◌then◌else◌, ◌==◌,
}
use telegram_cms.Enums.{PostState, MediaType, media_value}
use telegram_cms.Models.{Post, SourceChannel, Tag, MediaRef, public_web_url}
use telegram_cms.World.{Db, Keyboard, draft, published_button, no_buttons}
use telegram_cms.Env.{Env}

abbrev pub caption_limit : ℕ
caption_limit = 1024

abbrev pub preview_limit : ℕ
preview_limit = 900

-- `", ".join(texts)`
abbrev pub join : Text → List Text → Text
join sep [] = []
join sep (t ∷ []) = t
join sep (t ∷ u ∷ rest) = t ++ (sep ++ join sep (u ∷ rest))

-- The table of badges; a state that it lacks is shown by its name in capitals.
state_badge : PostState → Text
state_badge PostState.pending = codes "⏳ PENDING"
state_badge PostState.approved = codes "✅ APPROVED"
state_badge PostState.scheduled = codes "🗓 SCHEDULED"
state_badge PostState.published = codes "☑" ++ (0xFE0F ∷ codes " PUBLISHED")
state_badge PostState.rejected = codes "🗑 REJECTED"
state_badge PostState.publishing = codes "PUBLISHING"
state_badge PostState.publish_failed = codes "⚠" ++ (0xFE0F ∷ codes " FAILED")

-- The types present, each once, in the alphabetical order of their names.
abbrev sorted_kinds : List MediaType
sorted_kinds =
    MediaType.animation ∷ MediaType.audio ∷ MediaType.document ∷ MediaType.photo ∷ MediaType.video
    ∷ MediaType.video_note ∷ MediaType.voice ∷ []

kind_index : MediaType → ℕ
kind_index MediaType.photo = 0
kind_index MediaType.video = 1
kind_index MediaType.document = 2
kind_index MediaType.audio = 3
kind_index MediaType.animation = 4
kind_index MediaType.voice = 5
kind_index MediaType.video_note = 6

kinds_of : List MediaRef → List Text
unfolding kind_index
kinds_of refs =
    map media_value
      (keep (λ k. any (λ (m : MediaRef). kind_index m.kind == kind_index k) refs) sorted_kinds)

media_note : List MediaRef → Text
unfolding kinds_of
media_note [] = []
media_note (m ∷ refs) =
    codes "\n📎 media: "
    ++ (join (codes ", ") (kinds_of (m ∷ refs))
        ++ (if any (λ (r : MediaRef). r.omitted) (m ∷ refs)
            then codes " (omitted: too large)"
            else []))

-- `channel.source_label or channel.username or channel.title`
abbrev pub label_of : SourceChannel → Text
label_of c = opt_or c.source_label (opt_or c.username c.title)

preview : Text → Text
preview body =
    if ltb preview_limit (length body) then take preview_limit body ++ codes "…" else body

scheduled_line : Env → Option ℕ → List Text
scheduled_line e none = []
scheduled_line e (some t) = (codes "\n🗓 scheduled for " ++ e.quote (e.utc_minute t)) ∷ []

unfoldable pub render_draft_text : Env → Post → SourceChannel → List Tag → Text
unfolding state_badge media_note preview scheduled_line
render_draft_text e post channel tags = join (codes "\n") (
    (codes "<b>"
      ++ (state_badge post.state
          ++ (codes "</b>  ·  <b>" ++ (e.quote (label_of channel) ++ codes "</b>"))))
    ∷ (codes "<i>post #"
        ++ (e.decimal post.id ++ (codes "</i>  ·  src msg " ++ e.decimal post.source_message_id)))
    ∷ (codes "tags: "
        ++ (e.quote (text_or (join (codes ", ") (map (λ (t : Tag). t.label) tags)) (codes "—"))
            ++ media_note post.raw_media_refs))
    ∷ codes "—"
    ∷ e.quote (preview (opt_or post.normalized_text (opt_or post.raw_text (codes "(empty)"))))
    ∷ scheduled_line e post.scheduled_for)

-- Approve and Reject carry the post's id; the other two buttons open this URL.
unfoldable pub draft_keyboard : Env → Post → Keyboard
draft_keyboard e post =
    draft post.id (public_web_url e.settings ++ (codes "/queue/" ++ e.decimal post.id))

keyboard_of : Env → Post → PostState → Keyboard
unfolding draft_keyboard
keyboard_of e post PostState.published = published_button
keyboard_of e post PostState.rejected = no_buttons
keyboard_of e post PostState.publish_failed = no_buttons
keyboard_of e post PostState.pending = draft_keyboard e post
keyboard_of e post PostState.approved = draft_keyboard e post
keyboard_of e post PostState.scheduled = draft_keyboard e post
keyboard_of e post PostState.publishing = draft_keyboard e post

unfoldable pub build_draft_payload : Env → Post → SourceChannel → Db → Text × Keyboard
unfolding keyboard_of render_draft_text
build_draft_payload e post channel db = (
  render_draft_text e post channel (keep (λ (t : Tag). elem t.id post.tag_ids) db.tags),
  keyboard_of e post post.state,
)
