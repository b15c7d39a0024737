-- ===== src/Bot/Callbacks/Turns.antt =====
-- The buttons, and the turns of their posts.
use telegram_cms.Prelude.{
  ℕ, ◌≡◌, String, Bool, true, false, Option, none, some, refl, if◌then◌else◌,
}
use telegram_cms.Enums.{PostState, EventAction}
use telegram_cms.Models.{Post, SourceChannel, inline}
use telegram_cms.World.{
  Db, World, Result, err, value_error, Exec, get_now, get_db, get_post, get_channel, add_event,
  update_post,
}
use telegram_cms.World.Keeps.{Keeps, Keeps-bind, Keeps-pure, Keeps-Frames, Keeps-commit}
use telegram_cms.Env.{Env}
use telegram_cms.Bot.Send.Silent.{bot_call-Frames}
use telegram_cms.Bot.Publisher.Stages.{db-IsOutside}
use telegram_cms.Userbot.Ingest.Rows.{enqueue_job-db}
use telegram_cms.Bot.Callbacks.{
  CallbackQuery, authorized, reply, press_post, press_on, press, cb_approve, cb_reject,
}
use telegram_cms.Bot.Callbacks.Press.{refresh_card-Frames}
use telegram_cms.Lifecycle.Laws.{Allows, same_key}
use telegram_cms.Lifecycle.Rows.{decided-update, event-kept}
use telegram_cms.Lifecycle.{editor, is_decision}

module _ (P : Db → Type 0) (laws : Allows editor P) where
  reply-Keeps : (text : String) (alert : Bool) → Keeps P (reply text alert)
  reply-Keeps text alert =
      Keeps-bind P _ _ (Keeps-Frames P _ (bot_call-Frames db-IsOutside _)) (λ _. Keeps-pure P tt)

  module _ (e : Env) (c : CallbackQuery) (state : PostState) (action : EventAction) (text : String)
      (after : ℕ → Exec (Unit {0})) (decision : is_decision state ≡ true)
      (kept : (i : ℕ) → Keeps P (after i)) where
    press_post-Keeps :
        (i : ℕ) (p : Post) (channel : SourceChannel)
        → Keeps P (press_post e c state action text (after i) i p channel)
    unfolding press_post
    press_post-Keeps i p channel =
        Keeps-bind P get_now _ (record { at = λ w k. k })
          λ now.
            Keeps-bind P _ _
              (Keeps-commit P
                (λ db.
                  add_event i none action (inline c.from_user) now
                    (update_post i (λ q. record q { state = state }) db))
                λ db k. event-kept P laws i none action (inline c.from_user) now _ (
                  decided-update P laws i state (λ q. record q { state = state }) decision
                    (same_key _ (λ p. refl)) (λ p. refl) db k))
              λ _.
                Keeps-bind P get_db _ (record { at = λ w k. k })
                  λ db. Keeps-bind P _ _ (reply-Keeps text false) λ _.
                    Keeps-bind P _ _ (kept i) λ _. Keeps-Frames P _ (
                      refresh_card-Frames db-IsOutside e c (record p { state = state }) channel
                        p.draft_message_id db)

    on_channel :
        (i : ℕ) (p : Post) (w : World)
        → P w.db
        → (o : Option SourceChannel)
        → P
            (elim o as (λ _. Result (Unit {0}) × World) [
              | none ↦ reply "source channel missing" true w
              | some channel ↦ press_post e c state action text (after i) i p channel w
            ]).1.db
    on_channel i p w k none = (reply-Keeps _ true).at w k
    on_channel i p w k (some channel) = (press_post-Keeps i p channel).at w k

    press_on-Keeps : (i : ℕ) → Keeps P (press_on e c state action text (after i) i)
    unfolding press_on
    press_on-Keeps i = record { at = λ w k. go w k (get_post i w.db) }
      where
        go :
            (w : World)
            → P w.db
            → (o : Option Post)
            → P
                (elim o as (λ _. Result (Unit {0}) × World) [
                  | none ↦ reply "post not found" true w
                  | some p ↦ elim (get_channel p.source_channel_id w.db) [
                    | none ↦ reply "source channel missing" true w
                    | some channel ↦ press_post e c state action text (after i) i p channel w
                  ]
                ]).1.db
        go w k none = (reply-Keeps _ true).at w k
        go w k (some p) = on_channel i p w k (get_channel p.source_channel_id w.db)

    press-Keeps : Keeps P (press e c state action text after)
    unfolding press
    press-Keeps = record { at = λ w k. go w k (authorized e c w.db) c.data_id }
      where
        go :
            (w : World)
            → P w.db
            → (b : Bool) (o : Option ℕ)
            → P
                (if b
                  then elim o as (λ _. Result (Unit {0}) × World) [
                    | none ↦ (err value_error, w)
                    | some i ↦ press_on e c state action text (after i) i w
                  ]
                  else reply "Not authorized" true w).1.db
        go w k true none = k
        go w k true (some i) = (press_on-Keeps i).at w k
        go w k false o = (reply-Keeps _ true).at w k

  pub cb_approve-Keeps : (e : Env) (c : CallbackQuery) → Keeps P (cb_approve e c)
  unfolding cb_approve
  cb_approve-Keeps e c = press-Keeps e c _ _ _ _ refl λ i. Keeps-Frames P _ (enqueue_job-db _ _ _)

  pub cb_reject-Keeps : (e : Env) (c : CallbackQuery) → Keeps P (cb_reject e c)
  unfolding cb_reject
  cb_reject-Keeps e c = press-Keeps e c _ _ _ _ refl λ i. Keeps-pure P tt
