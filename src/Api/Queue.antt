-- ===== src/Api/Queue.antt =====
-- api/routers/queue.py: what an administrator decides of a post.
pub mod Listing
pub mod Decisions
pub mod Effects
pub mod Turns
use telegram_cms.Prelude.{
  ℕ, ◌-◌, Text, codes, Bool, true, false, Option, none, some, List, text_eq, leb, or_else,
  if◌then◌else◌,
}
use telegram_cms.Enums.{PostState, EventAction}
use telegram_cms.Models.{Admin, Post, tag_ids, tags_scheduled}
use telegram_cms.World.{
  Db, World, http, Result, ok, err, Exec, ◌>>=◌, ◌>>◌, commit, get_post, update_post, add_event,
  enqueue_publish,
}

pub record PostDecision : Type 0 where
  pub action : Text
  pub tag_ids : Option (List ℕ)
  pub scheduled_for : Option ℕ

-- The row that the endpoint answers with, read again.
abbrev refreshed : ℕ → Exec (Option Post)
refreshed i w = (ok (get_post i w.db), w)

approve_post : ℕ → Admin → List ℕ → Exec (Option Post)
approve_post i actor tags w =
    (do
      commit (λ db. add_event i (some actor.id) EventAction.approved (tag_ids tags) w.now (
          update_post i
            (λ p. record p { tag_ids = tags; state = PostState.approved; scheduled_for = none })
            db))
      enqueue_publish i none
      refreshed i)
      w

-- The job is deferred by the time that is left.
schedule_post : ℕ → Admin → List ℕ → Option ℕ → Exec (Option Post)
schedule_post i actor tags none w = (err (http 400 "scheduled_for is required"), w)
schedule_post i actor tags (some t) w =
    if leb t w.now
    then (err (http 400 "scheduled_for must be in the future"), w)
    else (do
      commit (λ db.
          add_event i (some actor.id) EventAction.scheduled (tags_scheduled tags t) w.now (
            update_post i
              (λ p. record p {
                tag_ids = tags;
                state = PostState.scheduled;
                scheduled_for = some t;
              })
              db))
      enqueue_publish i (some (t - w.now))
      refreshed i)
        w

reject_post : ℕ → Admin → List ℕ → Exec (Option Post)
reject_post i actor tags w =
    (do
      commit (λ db.
          add_event i (some actor.id) EventAction.rejected (tag_ids tags) w.now
            (update_post i (λ p. record p { tag_ids = tags; state = PostState.rejected }) db))
      refreshed i)
      w

act : ℕ → PostDecision → Admin → List ℕ → Exec (Option Post)
unfolding approve_post schedule_post reject_post
act i d actor tags w =
    if text_eq d.action (codes "approve")
    then approve_post i actor tags w
    else if text_eq d.action (codes "schedule")
    then schedule_post i actor tags d.scheduled_for w
    else if text_eq d.action (codes "reject")
    then reject_post i actor tags w
    else (err (http 400 "action must be approve|schedule|reject"), w)

unfoldable pub decide : ℕ → PostDecision → Admin → Exec (Option Post)
unfolding act
decide i d actor w = elim (get_post i w.db) [
  | none ↦ (err (http 404 "post not found"), w)
  | some p ↦ act i d actor (or_else d.tag_ids p.tag_ids) w
]

-- The endpoints of the three actions.
unfoldable pub approve : ℕ → Option (List ℕ) → Admin → Exec (Option Post)
approve i tags =
    decide i (record { action = codes "approve"; tag_ids = tags; scheduled_for = none })

unfoldable pub schedule : ℕ → ℕ → Admin → Exec (Option Post)
schedule i t =
    decide i (record { action = codes "schedule"; tag_ids = none; scheduled_for = some t })

unfoldable pub reject : ℕ → Admin → Exec (Option Post)
reject i = decide i (record { action = codes "reject"; tag_ids = none; scheduled_for = none })

unfoldable pub edit_tags : ℕ → List ℕ → Admin → Exec (Option Post)
edit_tags i tags actor w = elim (get_post i w.db) [
  | none ↦ (err (http 404 "post not found"), w)
  | some p ↦
      (do
        commit (λ db.
            add_event i (some actor.id) EventAction.edited (tag_ids tags) w.now
              (update_post i (λ q. record q { tag_ids = tags }) db))
        refreshed i)
        w
]
