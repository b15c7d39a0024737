-- ===== src/Bot/Publisher.antt =====
-- bot/publisher.py: the `publish` job. Each function is one transaction or one stage of the job.
pub mod Stages
pub mod Ways
pub mod Writes
pub mod Turns
pub mod Guards
pub mod Published
pub mod Answered
pub mod Delivered
pub mod Raises
pub mod Failed
pub mod Race
use telegram_cms.Prelude.{
  ℕ, zero, suc, ◌+◌, ◌*◌, Text, Bool, true, false, not, ◌&&◌, Option, none, some, List, [], ◌∷◌,
  ◌++◌, any, keep, is_some, truthy, opt_or, text_eq, take, nonzero, if◌then◌else◌, codes,
}
use telegram_cms.Enums.{PostState, EventAction, state_in}
use telegram_cms.Models.{
  Post, SourceChannel, MediaRef, PublishedDedupe, published_to, dedupe_race, error,
}
use telegram_cms.World.{
  Db, Exn, unmapped_instance, no_message_id, retry_after, Result, ok, err, Exec, ◌>>=◌, ◌>>◌, pure,
  raise, get_db, commit, try_except, sleep, bot_call, is_telegram_error, get_post, get_channel,
  update_post, add_event, edit_message_text, send_message,
}
use telegram_cms.Env.{Env}
use telegram_cms.Bot.Cards.{build_draft_payload}
use telegram_cms.Bot.Send.{send_post}

-- The job's return values.
pub data Outcome : Type 0 where
  not_found already_published no_channel duplicate published : Outcome
  skip : PostState → Outcome

-- `_SKIP_STATES`
abbrev pub skip_states : List PostState
skip_states = PostState.rejected ∷ PostState.published ∷ PostState.publishing ∷ []

abbrev pub has_hash : Text → List PublishedDedupe → Bool
has_hash h = any (λ (d : PublishedDedupe). text_eq d.hash h)

unfoldable pub dedupe_exists : Text → Db → Bool
dedupe_exists h db = has_hash h db.dedupe

-- `INSERT … ON CONFLICT DO NOTHING RETURNING`: the new table, and whether a row was inserted.
unfoldable pub insert_hash : Text → ℕ → Db → Db × Bool
insert_hash h now db =
    if has_hash h db.dedupe
    then (db, false)
    else (record db { dedupe = db.dedupe ++ (record { hash = h; published_at = now } ∷ []) }, true)

unfoldable pub reserve_dedupe : Option Text → Exec Bool
unfolding insert_hash
reserve_dedupe none w = (ok true, w)
reserve_dedupe (some []) w = (ok true, w)
reserve_dedupe (some (c ∷ h)) w =
    let (db, inserted) = insert_hash (c ∷ h) w.now w.db in (ok inserted, record w { db = db })

-- `DELETE FROM published_dedupe WHERE dedupe_hash = h`
unfoldable pub delete_hash : Text → Db → Db
delete_hash h db = record db {
  dedupe = keep (λ (d : PublishedDedupe). not (text_eq d.hash h)) db.dedupe;
}

unfoldable pub release_dedupe : Option Text → Exec (Unit {0})
unfolding delete_hash
release_dedupe none = pure tt
release_dedupe (some []) = pure tt
release_dedupe (some (c ∷ h)) = commit (delete_hash (c ∷ h))

unfoldable pub mark_duplicate : ℕ → Text → Exec (Unit {0})
mark_duplicate post_id h w = elim (get_post post_id w.db) [
  | none ↦ (ok tt, w)
  | some post ↦
      commit
        (λ db.
          add_event post_id none EventAction.duplicate (dedupe_race h) w.now
            (update_post post_id (λ p. record p { state = PostState.rejected }) db))
        w
]

-- The writes of `_mark_published` to the post and the audit log.
pub published_row : Env → ℕ → ℕ → ℕ → Db → Db
published_row e post_id message_id now db =
    add_event post_id none EventAction.published (published_to message_id e.destination_channel_id)
      now
      (update_post post_id
        (λ p. record p {
          state = PostState.published;
          published_message_id = some message_id;
          published_at = some now;
        })
        db)

-- `session.add(pg_insert(…))` comes before the commit: where the session does not take a statement,
-- nothing is written.
unfoldable pub mark_published : Env → ℕ → ℕ → Option Text → Exec (Unit {0})
unfolding published_row insert_hash
mark_published e post_id message_id h w = elim (get_post post_id w.db) [
  | none ↦ (ok tt, w)
  | some post ↦
      if truthy h
      then (if e.accepts_statement
          then commit
              (λ db.
                (insert_hash (opt_or h []) w.now (published_row e post_id message_id w.now db)).0)
              w
          else (err unmapped_instance, w))
      else commit (published_row e post_id message_id w.now) w
]

-- `except TelegramAPIError: pass` round one call.
unfoldable pub best_effort : Exec ℕ → Exec (Unit {0})
best_effort m =
    try_except (do m; pure tt) (λ exc. if is_telegram_error exc then pure tt else raise exc)

pub edit_card : Env → Post → SourceChannel → ℕ → Exec (Unit {0})
unfolding build_draft_payload best_effort
edit_card e post channel zero w = (ok tt, w)
edit_card e post channel (suc m) w =
    let (text, keyboard) = build_draft_payload e post channel w.db in
    best_effort (bot_call (edit_message_text e.editor_group_id (suc m) text keyboard)) w

unfoldable pub edit_draft_card : Env → Post → SourceChannel → Exec (Unit {0})
unfolding edit_card
edit_draft_card e post channel = elim post.draft_message_id [
  | none ↦ pure tt
  | some m ↦ edit_card e post channel m
]

unfoldable pub alert_failure : Env → Post → Text → Exec (Unit {0})
unfolding best_effort
alert_failure e post text =
    if nonzero e.editor_group_id
    then best_effort (
        bot_call (
          send_message e.editor_group_id (
            codes "⚠"
            ++ (0xFE0F
                ∷ (codes " <b>Publish failed</b> for post #"
                    ++ (e.decimal post.id
                        ++ (codes "\n<code>" ++ (take 300 text ++ codes "</code>"))))))))
    else pure tt

-- One send, made again after the wait that Telegram asks for.
pub send_again : Exec ℕ → Exn → Exec ℕ
send_again send (retry_after seconds) = do sleep ((seconds + 1) * 1000); send
send_again send exc = raise exc

unfoldable pub send_spaced : Env → Text → List MediaRef → Exec ℕ
unfolding send_again
send_spaced e text refs = do
  let send = send_post e.media_max_size_default e.destination_channel_id text refs
  sleep e.publish_spacing
  try_except send (send_again send)

-- After the send: the reservation is released where nothing was sent.
pub settle : Env → ℕ → SourceChannel → Option Text → Result ℕ → Exec Outcome
settle e post_id channel h (err exc) = do release_dedupe h; raise exc
settle e post_id channel h (ok zero) = do release_dedupe h; raise (no_message_id post_id)
settle e post_id channel h (ok (suc m)) = do
  mark_published e post_id (suc m) h
  db ← get_db
  elim (get_post post_id db) [ none ↦ pure tt | some post ↦ edit_draft_card e post channel ]
  pure published

pub send_and_settle : Env → ℕ → SourceChannel → Option Text → Text → List MediaRef → Exec Outcome
unfolding settle
send_and_settle e post_id channel h text refs w =
    let (sent, w') = send_spaced e text refs w in settle e post_id channel h sent w'

pub report_duplicate : ℕ → Text → Exec Outcome
report_duplicate post_id h = do mark_duplicate post_id h; pure duplicate

-- The two checks of the reservation table, then the send.
unfoldable pub publish_to :
    Env → ℕ → SourceChannel → Option Text → Text → List MediaRef → Exec Outcome
unfolding send_and_settle report_duplicate
publish_to e post_id channel h text refs = do
  db ← get_db
  if truthy h && dedupe_exists (opt_or h []) db then report_duplicate post_id (opt_or h []) else (do
    reserved ← reserve_dedupe h
    if reserved
        then send_and_settle e post_id channel h text refs
        else report_duplicate post_id (opt_or h []))

-- `ai_transformed_text or normalized_text or raw_text or ""`
abbrev pub text_to_send : Post → Text
text_to_send p = opt_or p.ai_transformed_text (opt_or p.normalized_text (opt_or p.raw_text []))

pub with_channel : Env → ℕ → Post → Option SourceChannel → Exec Outcome
with_channel e post_id post none = pure no_channel
with_channel e post_id post (some channel) =
    publish_to e post_id channel post.dedupe_hash (text_to_send post) post.raw_media_refs

-- The transition to `publishing` is committed before anything is sent.
pub claim : Env → ℕ → Post → Exec Outcome
unfolding with_channel
claim e post_id post = do
  commit (update_post post_id (λ p. record p { state = PostState.publishing }))
  db ← get_db
  with_channel e post_id post (get_channel post.source_channel_id db)

pub guarded : Env → ℕ → Post → Exec Outcome
unfolding claim
guarded e post_id post =
    if is_some post.published_message_id
    then pure already_published
    else if state_in post.state skip_states
    then pure (skip post.state)
    else claim e post_id post

unfoldable pub publish_core : Env → ℕ → Exec Outcome
unfolding guarded
publish_core e post_id = do
  db ← get_db
  elim (get_post post_id db) [ none ↦ pure not_found | some post ↦ guarded e post_id post ]

unfoldable pub on_publish_failure : Env → ℕ → Text → Exec (Unit {0})
on_publish_failure e post_id text w = elim (get_post post_id w.db) [
  | none ↦ (ok tt, w)
  | some post ↦
      (do
        commit (λ db.
            add_event post_id none EventAction.publish_failed (error (take 500 text)) w.now
              (update_post post_id (λ p. record p { state = PostState.publish_failed }) db))
        alert_failure e post text)
        w
]

unfoldable pub publish : Env → ℕ → Exec Outcome
publish e post_id =
    try_except (publish_core e post_id)
      (λ exc. do on_publish_failure e post_id (e.show_exn exc); raise exc)
