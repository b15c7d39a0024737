-- ===== src/Api/Queue/Turns.antt =====
-- The decisions of the editors, and the turns of their posts.
use telegram_cms.Prelude.{
  ℕ, ◌-◌, codes, text_eq, leb, Bool, true, false, Option, none, some, or_else, List, refl,
  if◌then◌else◌,
}
use telegram_cms.Enums.{PostState, EventAction}
use telegram_cms.Models.{Post, Admin, tag_ids, tags_scheduled}
use telegram_cms.World.{
  Db, World, Result, err, http, ◌>>◌, commit, get_post, add_event, update_post, enqueue_publish,
}
use telegram_cms.World.Keeps.{Keeps, Keeps-bind, Keeps-Frames}
use telegram_cms.Userbot.Ingest.Rows.{enqueue_job-db}
use telegram_cms.Api.Queue.{
  PostDecision, refreshed, approve_post, schedule_post, reject_post, act, decide, edit_tags,
}
use telegram_cms.Lifecycle.{editor, bystander}
use telegram_cms.Lifecycle.Laws.{Allows, same_key}
use telegram_cms.Lifecycle.Rows.{silent-update, decided-update, event-kept}

module _ (P : Db → Type 0) (laws : Allows editor P) where
  refreshed-Keeps : (i : ℕ) → Keeps P (refreshed i)
  refreshed-Keeps i = record { at = λ w k. k }

  module _ (i : ℕ) (actor : Admin) (tags : List ℕ) where
    approve_post-Keeps : Keeps P (approve_post i actor tags)
    unfolding approve_post
    approve_post-Keeps = record {
      at = λ w k.
          (Keeps-bind P _ _ (Keeps-Frames P _ (enqueue_job-db _ _ _)) (λ _. refreshed-Keeps i)).at _
            (event-kept P laws i _ _ _ w.now _ (
              decided-update P laws i PostState.approved
                (λ p. record p { tag_ids = tags; state = PostState.approved; scheduled_for = none })
                refl (same_key _ (λ p. refl)) (λ p. refl) w.db k));
    }

    reject_post-Keeps : Keeps P (reject_post i actor tags)
    unfolding reject_post
    reject_post-Keeps = record {
      at = λ w k. event-kept P laws i _ _ _ w.now _ (
          decided-update P laws i PostState.rejected
            (λ p. record p { tag_ids = tags; state = PostState.rejected }) refl
            (same_key _ (λ p. refl)) (λ p. refl) w.db k);
    }

    schedule_post-Keeps : (o : Option ℕ) → Keeps P (schedule_post i actor tags o)
    unfolding schedule_post
    schedule_post-Keeps none = record { at = λ w k. k }
    schedule_post-Keeps (some t) = record { at = λ w k. go w k (leb t w.now) }
      where
        go :
            (w : World)
            → P w.db
            → (b : Bool)
            → P
                (if b
                  then (err (http 400 "scheduled_for must be in the future"), w)
                  else (do
                    commit (λ db.
                        add_event i
                          (some actor.id)
                          EventAction.scheduled
                          (tags_scheduled tags t)
                          w.now
                          (update_post i
                            (λ p. record p {
                              tag_ids = tags;
                              state = PostState.scheduled;
                              scheduled_for = some t;
                            })
                            db))
                    enqueue_publish i (some (t - w.now))
                    refreshed i)
                      w).1.db
        go w k true = k
        go w k false =
            (Keeps-bind P _ _ (Keeps-Frames P _ (enqueue_job-db _ _ _)) (λ _. refreshed-Keeps i)).at
              _
              (event-kept P laws i _ _ _ w.now _ (
                decided-update P laws i PostState.scheduled
                  (λ p. record p {
                    tag_ids = tags;
                    state = PostState.scheduled;
                    scheduled_for = some t;
                  })
                  refl (same_key _ (λ p. refl)) (λ p. refl) w.db k))

    act-Keeps : (d : PostDecision) → Keeps P (act i d actor tags)
    unfolding act
    act-Keeps d = record {
      at = λ w k.
          go w k (text_eq d.action (codes "approve")) (text_eq d.action (codes "schedule"))
            (text_eq d.action (codes "reject"));
    }
      where
        go :
            (w : World)
            → P w.db
            → (a b c : Bool)
            → P
                (if a
                  then approve_post i actor tags w
                  else if b
                  then schedule_post i actor tags d.scheduled_for w
                  else if c
                  then reject_post i actor tags w
                  else (err (http 400 "action must be approve|schedule|reject"), w)).1.db
        go w k true b c = approve_post-Keeps.at w k
        go w k false true c = (schedule_post-Keeps d.scheduled_for).at w k
        go w k false false true = reject_post-Keeps.at w k
        go w k false false false = k

  pub decide-Keeps : (i : ℕ) (d : PostDecision) (actor : Admin) → Keeps P (decide i d actor)
  unfolding decide
  decide-Keeps i d actor = record { at = λ w k. go w k (get_post i w.db) }
    where
      go :
          (w : World)
          → P w.db
          → (o : Option Post)
          → P
              (elim o as (λ _. Result (Option Post) × World) [
                | none ↦ (err (http 404 "post not found"), w)
                | some p ↦ act i d actor (or_else d.tag_ids p.tag_ids) w
              ]).1.db
      go w k none = k
      go w k (some p) = (act-Keeps i actor _ d).at w k

module _ (P : Db → Type 0) (laws : Allows bystander P) where
  pub edit_tags-Keeps : (i : ℕ) (tags : List ℕ) (actor : Admin) → Keeps P (edit_tags i tags actor)
  unfolding edit_tags
  edit_tags-Keeps i tags actor = record { at = λ w k. go w k (get_post i w.db) }
    where
      go :
          (w : World)
          → P w.db
          → (o : Option Post)
          → P
              (elim o as (λ _. Result (Option Post) × World) [
                | none ↦ (err (http 404 "post not found"), w)
                | some p ↦
                    (do
                      commit (λ db.
                          add_event i
                            (some actor.id)
                            EventAction.edited
                            (tag_ids tags)
                            w.now
                            (update_post i (λ q. record q { tag_ids = tags }) db))
                      refreshed i)
                      w
              ]).1.db
      go w k none = k
      go w k (some p) = event-kept P laws i _ _ _ w.now _ (
          silent-update P laws i (λ q. record q { tag_ids = tags }) (same_key _ (λ p. refl))
            (λ p. refl) w.db k)
