-- ===== src/Bot/Draft.antt =====
-- bot/draft.py and bot/alerts.py: the `post_draft` and `alert` jobs.
pub mod Cards
pub mod Turns
use telegram_cms.Prelude.{ℕ, zero, suc, Text, Bool, Option, none, some, nonzero, if◌then◌else◌}
use telegram_cms.Enums.{EventAction}
use telegram_cms.Models.{Post, SourceChannel, draft_card}
use telegram_cms.World.{
  Db, World, Exn, ok, Exec, ◌>>=◌, ◌>>◌, pure, raise, commit, try_except, bot_call,
  is_telegram_error, get_post, get_channel, update_post, add_event, edit_message_text, send_card,
  send_message,
}
use telegram_cms.Env.{Env}
use telegram_cms.Bot.Cards.{build_draft_payload}

pub data Outcome : Type 0 where
  not_found no_channel no_editor_group not_normalized refreshed posted sent : Outcome
  failed : Exn → Outcome

-- `except TelegramAPIError as e: return f"error:{e}"`
abbrev pub reported : Exec Outcome → Exec Outcome
reported m = try_except m (λ exc. if is_telegram_error exc then pure (failed exc) else raise exc)

-- The new card's id is stored with the post, if it is still there.
store_card : Env → ℕ → ℕ → Exec (Unit {0})
store_card e i m w = elim (get_post i w.db) [
  | none ↦ (ok tt, w)
  | some p ↦
      commit
        (λ db.
          add_event i none EventAction.draft_posted (draft_card e.editor_group_id m) w.now
            (update_post i (λ q. record q { draft_message_id = some m }) db))
        w
]

post_card : Env → ℕ → Post → SourceChannel → Db → Exec Outcome
unfolding store_card
post_card e i p channel db = do
  let (text, keyboard) = build_draft_payload e p channel db
  m ← bot_call (send_card e.editor_group_id text keyboard)
  store_card e i m
  pure posted

edit_or_post : Env → ℕ → Post → SourceChannel → Option ℕ → Db → Exec Outcome
unfolding post_card
edit_or_post e i p channel none db = post_card e i p channel db
edit_or_post e i p channel (some zero) db = post_card e i p channel db
edit_or_post e i p channel (some (suc m)) db = do
  let (text, keyboard) = build_draft_payload e p channel db
  bot_call (edit_message_text e.editor_group_id (suc m) text keyboard)
  pure refreshed

draft_for : Env → ℕ → Post → SourceChannel → Exec Outcome
unfolding edit_or_post
draft_for e i p channel w =
    if nonzero e.editor_group_id
    then elim p.normalized_text [
      | none ↦ (ok not_normalized, w)
      | some t ↦ reported (edit_or_post e i p channel p.draft_message_id w.db) w
    ]
    else (ok no_editor_group, w)

unfoldable pub post_draft : Env → ℕ → Exec Outcome
unfolding draft_for
post_draft e i w = elim (get_post i w.db) [
  | none ↦ (ok not_found, w)
  | some p ↦ elim (get_channel p.source_channel_id w.db) [
    | none ↦ (ok no_channel, w)
    | some channel ↦ draft_for e i p channel w
  ]
]

unfoldable pub alert : Env → Text → Exec Outcome
alert e text =
    if nonzero e.editor_group_id
    then reported (do bot_call (send_message e.editor_group_id text); pure sent)
    else pure no_editor_group
