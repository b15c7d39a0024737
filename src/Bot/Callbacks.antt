-- ===== src/Bot/Callbacks.antt =====
-- bot/handlers/callbacks.py: the buttons of a draft card.
pub mod Press
pub mod Turns
use telegram_cms.Prelude.{
  ℕ, zero, suc, ℤ, pos, int_eq, Bool, true, false, not, ◌&&◌, Option, none, some, find, is_some,
  or_else, if◌then◌else◌, String,
}
use telegram_cms.Enums.{Role, PostState, EventAction, role_at_least}
use telegram_cms.Models.{Admin, Post, SourceChannel, inline}
use telegram_cms.World.{
  Db, World, value_error, err, Exec, ◌>>=◌, ◌>>◌, pure, raise, get_db, get_now, commit, bot_call,
  get_post, get_channel, update_post, add_event, answer_callback, edit_message_text,
  enqueue_publish,
}
use telegram_cms.Env.{Env}
use telegram_cms.Bot.Cards.{build_draft_payload}
use telegram_cms.Bot.Publisher.{best_effort}

-- `chat` is none where the message of the button is not accessible; `data_id` is what
-- `int(data.split(":", 1)[1])` reads, none where that raises.
pub record CallbackQuery : Type 0 where
  pub chat : Option ℤ
  pub from_user : ℤ
  pub data_id : Option ℕ

abbrev pub is_linked : ℤ → Option ℤ → Bool
is_linked user none = false
is_linked user (some t) = int_eq t user

-- The administrator with this Telegram account who is not disabled.
abbrev pub linked_admin : ℤ → Db → Option Admin
linked_admin user db =
    find (λ (a : Admin). is_linked user a.tg_user_id && not (is_some a.disabled_at)) db.admins

abbrev pub in_group : ℤ → Option ℤ → Bool
in_group group none = false
in_group group (some chat) = int_eq chat group

abbrev pub is_editor : Option Admin → Bool
is_editor none = false
is_editor (some a) = role_at_least a.role Role.editor

unfoldable pub authorized : Env → CallbackQuery → Db → Bool
authorized e c db = in_group e.editor_group_id c.chat && is_editor (linked_admin c.from_user db)

abbrev reply : String → Bool → Exec (Unit {0})
reply text show_alert = do bot_call (answer_callback text show_alert); pure tt

-- The card is edited in the chat of the button's message.
unfoldable pub refresh_card :
    Env → CallbackQuery → Post → SourceChannel → Option ℕ → Db → Exec (Unit {0})
refresh_card e c p channel none db = pure tt
refresh_card e c p channel (some zero) db = pure tt
refresh_card e c p channel (some (suc m)) db =
    let (text, keyboard) = build_draft_payload e p channel db in
    best_effort (bot_call (edit_message_text (or_else c.chat (pos 0)) (suc m) text keyboard))

-- What both handlers do with a post that is there: the state, the event, the answer, then `after` and
-- the card as it is after the commit.
press_post :
    Env
    → CallbackQuery
    → PostState
    → EventAction
    → String
    → Exec (Unit {0})
    → ℕ
    → Post
    → SourceChannel
    → Exec (Unit {0})
press_post e c state action text after i p channel = do
  now ← get_now
  commit (λ db.
      add_event i none action (inline c.from_user) now
        (update_post i (λ q. record q { state = state }) db))
  db ← get_db
  reply text false
  after
  refresh_card e c (record p { state = state }) channel p.draft_message_id db

press_on :
    Env → CallbackQuery → PostState → EventAction → String → Exec (Unit {0}) → ℕ → Exec (Unit {0})
unfolding press_post
press_on e c state action text after i w = elim (get_post i w.db) [
  | none ↦ reply "post not found" true w
  | some p ↦ elim (get_channel p.source_channel_id w.db) [
    | none ↦ reply "source channel missing" true w
    | some channel ↦ press_post e c state action text after i p channel w
  ]
]

press :
    Env → CallbackQuery → PostState → EventAction → String → (ℕ → Exec (Unit {0})) → Exec (Unit {0})
unfolding press_on
press e c state action text after w =
    if authorized e c w.db
    then elim c.data_id [
      | none ↦ (err value_error, w)
      | some i ↦ press_on e c state action text (after i) i w
    ]
    else reply "Not authorized" true w

unfoldable pub cb_noop : Exec (Unit {0})
cb_noop = reply "" false

unfoldable pub cb_approve : Env → CallbackQuery → Exec (Unit {0})
unfolding press
cb_approve e c =
    press e c PostState.approved EventAction.approved "Approved — publishing…"
      (λ i. enqueue_publish i none)

unfoldable pub cb_reject : Env → CallbackQuery → Exec (Unit {0})
unfolding press
cb_reject e c = press e c PostState.rejected EventAction.rejected "Rejected" (λ i. pure tt)
