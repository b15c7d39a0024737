-- ===== src/Bot/Send.antt =====
-- bot/publisher.py, `_send_post`: one post to a chat, with its media.
pub mod Silent
use telegram_cms.Prelude.{
  ℕ, ℤ, Text, Bool, not, ◌&&◌, ◌||◌, Option, none, some, List, [], ◌∷◌, take, map, keep, is_empty,
  length, leb, ◌==◌, if◌then◌else◌, text_or, codes,
}
use telegram_cms.Enums.{MediaType}
use telegram_cms.Models.{MediaRef}
use telegram_cms.World.{
  Exec, ◌>>=◌, ◌>>◌, pure, bot_call, file_exists, send_message, send_media, send_media_group,
}
use telegram_cms.Bot.Cards.{caption_limit}

-- `m.get("file") and not m.get("omitted")`, then the cap on the size, where a size is known.
unfoldable pub sendable : ℕ → List MediaRef → List MediaRef
sendable max_size refs =
    keep (λ (m : MediaRef). (m.size == 0) || leb m.size max_size)
      (keep (λ (m : MediaRef). not (is_empty m.file) && not m.omitted) refs)

abbrev pub has_text : Text → Bool
has_text text = not (is_empty text)

-- The text where it fits a caption.
unfoldable pub caption_for : Text → Option Text
caption_for text = if has_text text && leb (length text) caption_limit then some text else none

-- The method for each type; `send_voice` and `send_video_note` are called without the caption.
unfoldable pub caption_sent : MediaType → Option Text → Option Text
caption_sent MediaType.voice caption = none
caption_sent MediaType.video_note caption = none
caption_sent MediaType.photo caption = caption
caption_sent MediaType.video caption = caption
caption_sent MediaType.document caption = caption
caption_sent MediaType.audio caption = caption
caption_sent MediaType.animation caption = caption

abbrev group_kind : MediaType → MediaType
group_kind MediaType.photo = MediaType.photo
group_kind MediaType.video = MediaType.video
group_kind _ = MediaType.document

-- `send_message(chat_id, text or " ")`
abbrev send_text : ℤ → Text → Exec ℕ
send_text chat text = bot_call (send_message chat (text_or text (codes " ")))

send_group : ℤ → List MediaRef → Exec (Unit {0})
send_group chat [] = pure tt
send_group chat (m ∷ rest) = do
  bot_call (send_media_group chat (map (λ (r : MediaRef). (group_kind r.kind, r.file)) (m ∷ rest)))
  pure tt

-- The other media, nine at most, as a group of those that are on disk.
send_extra : ℤ → List MediaRef → Exec (Unit {0})
unfolding send_group
send_extra chat extra w =
    send_group chat (keep (λ (m : MediaRef). file_exists m.file w) (take 9 extra)) w

-- A caption that was left out for its length goes as a message of its own.
send_long : ℤ → Text → Option Text → Exec (Unit {0})
send_long chat text (some caption) = pure tt
send_long chat text none =
    if has_text text then (do bot_call (send_message chat text); pure tt) else pure tt

send_with : ℤ → Text → MediaRef → List MediaRef → Exec ℕ
unfolding send_extra send_long caption_for caption_sent
send_with chat text primary extra = do
  m ←
      bot_call
        (send_media chat primary.kind primary.file (caption_sent primary.kind (caption_for text)))
  send_extra chat extra
  send_long chat text (caption_for text)
  pure m

send_files : ℤ → Text → List MediaRef → Exec ℕ
unfolding send_with
send_files chat text [] w = send_text chat text w
send_files chat text (primary ∷ extra) w =
    (if file_exists primary.file w then send_with chat text primary extra else send_text chat text)
      w

unfoldable pub send_post : ℕ → ℤ → Text → List MediaRef → Exec ℕ
unfolding send_files sendable
send_post max_size chat text refs = send_files chat text (sendable max_size refs)
