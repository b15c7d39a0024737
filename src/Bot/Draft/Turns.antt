-- ===== src/Bot/Draft/Turns.antt =====
-- The draft job, and what it keeps of the posts.
use telegram_cms.Prelude.{
  ℕ, zero, suc, Text, Bool, true, false, Option, none, some, refl, nonzero, if◌then◌else◌,
}
use telegram_cms.Enums.{EventAction}
use telegram_cms.Models.{Post, SourceChannel, draft_card}
use telegram_cms.World.{
  Db, World, Result, ok, Exec, is_telegram_error, commit, get_post, get_channel, add_event,
  update_post,
}
use telegram_cms.World.Keeps.{
  Keeps, Keeps-bind, Keeps-pure, Keeps-raise, Keeps-Frames, Keeps-try, Keeps-if,
}
use telegram_cms.Env.{Env}
use telegram_cms.Bot.Send.Silent.{bot_call-Frames}
use telegram_cms.Bot.Publisher.Stages.{db-IsOutside}
use telegram_cms.Bot.Draft.{
  Outcome, not_found, no_channel, not_normalized, no_editor_group, refreshed, posted, failed,
  reported, store_card, post_card, edit_or_post, draft_for, post_draft,
}
use telegram_cms.Lifecycle.{bystander}
use telegram_cms.Lifecycle.Laws.{Allows, same_key}
use telegram_cms.Lifecycle.Rows.{silent-update, event-kept}

module _ (P : Db → Type 0) (laws : Allows bystander P) where
  module _ (e : Env) (i : ℕ) where
    store_card-Keeps : (m : ℕ) → Keeps P (store_card e i m)
    unfolding store_card
    store_card-Keeps m = record { at = λ w k. go w k (get_post i w.db) }
      where
        go :
            (w : World)
            → P w.db
            → (o : Option Post)
            → P
                (elim o as (λ _. Result (Unit {0}) × World) [
                  | none ↦ (ok tt, w)
                  | some p ↦
                      commit
                        (λ db.
                          add_event i none EventAction.draft_posted
                            (draft_card e.editor_group_id m)
                            w.now
                            (update_post i (λ q. record q { draft_message_id = some m }) db))
                        w
                ]).1.db
        go w k none = k
        go w k (some p) = event-kept P laws i none _ _ w.now _ (
            silent-update P laws i (λ q. record q { draft_message_id = some m })
              (same_key _ (λ p. refl)) (λ p. refl) w.db k)

    post_card-Keeps : (p : Post) (c : SourceChannel) (db : Db) → Keeps P (post_card e i p c db)
    unfolding post_card
    post_card-Keeps p c db =
        Keeps-bind P _ _ (Keeps-Frames P _ (bot_call-Frames db-IsOutside _))
          λ m. Keeps-bind P _ _ (store_card-Keeps m) (λ _. Keeps-pure P posted)

    edit_or_post-Keeps :
        (p : Post) (c : SourceChannel) (m : Option ℕ) (db : Db)
        → Keeps P (edit_or_post e i p c m db)
    unfolding edit_or_post
    edit_or_post-Keeps p c none db = post_card-Keeps p c db
    edit_or_post-Keeps p c (some zero) db = post_card-Keeps p c db
    edit_or_post-Keeps p c (some (suc m)) db =
        Keeps-bind P _ _ (Keeps-Frames P _ (bot_call-Frames db-IsOutside _))
          (λ _. Keeps-pure P refreshed)

    reported-Keeps : (m : Exec Outcome) → Keeps P m → Keeps P (reported m)
    reported-Keeps m h =
        Keeps-try P _ _ h
          λ x. Keeps-if P (is_telegram_error x) _ _ (Keeps-pure P (failed x)) (Keeps-raise P x)

    draft_for-Keeps : (p : Post) (c : SourceChannel) → Keeps P (draft_for e i p c)
    unfolding draft_for
    draft_for-Keeps p c = record {
      at = λ w k. go w k (nonzero e.editor_group_id) p.normalized_text;
    }
      where
        go :
            (w : World)
            → P w.db
            → (b : Bool) (o : Option Text)
            → P
                (if b
                  then elim o as (λ _. Result Outcome × World) [
                    | none ↦ (ok not_normalized, w)
                    | some t ↦ reported (edit_or_post e i p c p.draft_message_id w.db) w
                  ]
                  else (ok no_editor_group, w)).1.db
        go w k true none = k
        go w k true (some t) =
            (reported-Keeps _ (edit_or_post-Keeps p c p.draft_message_id w.db)).at w k
        go w k false o = k

    for_post :
        (p : Post) (w : World)
        → P w.db
        → (o : Option SourceChannel)
        → P
            (elim o as (λ _. Result Outcome × World) [
              | none ↦ (ok no_channel, w)
              | some channel ↦ draft_for e i p channel w
            ]).1.db
    for_post p w k none = k
    for_post p w k (some c) = (draft_for-Keeps p c).at w k

    pub post_draft-Keeps : Keeps P (post_draft e i)
    unfolding post_draft
    post_draft-Keeps = record { at = λ w k. go w k (get_post i w.db) }
      where
        go :
            (w : World)
            → P w.db
            → (o : Option Post)
            → P
                (elim o as (λ _. Result Outcome × World) [
                  | none ↦ (ok not_found, w)
                  | some p ↦ elim (get_channel p.source_channel_id w.db) [
                    | none ↦ (ok no_channel, w)
                    | some channel ↦ draft_for e i p channel w
                  ]
                ]).1.db
        go w k none = k
        go w k (some p) = for_post p w k (get_channel p.source_channel_id w.db)
