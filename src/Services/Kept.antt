-- ===== src/Services/Kept.antt =====
-- The services together, and what holds of the posts through all their writes.
use telegram_cms.Prelude.{ℕ, none, suc, List, [], ◌∷◌, ◌≡◌, refl, arith}
use telegram_cms.Models.{Post}
use telegram_cms.World.{Db, World, Result, ok, err, enqueue_publish}
use telegram_cms.World.Keeps.{Keeps, Keeps-bind, Keeps-Frames}
use telegram_cms.Env.{Env}
use telegram_cms.Lifecycle.{Who}
use telegram_cms.Lifecycle.Laws.{Allows}
use telegram_cms.Userbot.Ingest.Rows.{enqueue_job-db}
use telegram_cms.Userbot.Listening.Turns.{start-Keeps, on_new_message-Keeps}
use telegram_cms.Worker.Normalize.Turns.{normalize-Keeps}
use telegram_cms.Worker.Reconcile.{
  requeue_all, reconcile_scheduled, prune_dedupe, prune_dedupe_rows, prune_audit_events,
}
use telegram_cms.Bot.Publisher.Turns.{publish-Keeps}
use telegram_cms.Bot.Draft.Turns.{post_draft-Keeps}
use telegram_cms.Bot.Callbacks.Turns.{cb_approve-Keeps, cb_reject-Keeps}
use telegram_cms.Api.Queue.Turns.{decide-Keeps, edit_tags-Keeps}
use telegram_cms.Api.SourceChannels.Requests.{handle}
use telegram_cms.Api.SourceChannels.Turns.{handle_kept}
use telegram_cms.Services.{
  Event, actor, started, arrived, normalizing, booted, pruning, publishing, drafting,
  approve_pressed, reject_pressed, decision, tagging, request, editing, logging_in, committed, edit,
  step, run,
}
use telegram_cms.Services.Edits.{edit_kept, login_kept}

module _ {who : Who} (P : Db → Type 0) (laws : Allows who P) where
  requeue_all-Keeps :
      (ps : List Post) (n : ℕ) → Keeps P (requeue_all (λ i. enqueue_publish i none) ps n)
  unfolding requeue_all
  requeue_all-Keeps [] n = record { at = λ w k. k }
  requeue_all-Keeps (p ∷ ps) n = record {
    at =
        (Keeps-bind P _ _ (Keeps-Frames P _ (enqueue_job-db _ _ _))
          (λ _. requeue_all-Keeps ps (suc n))).at;
  }

  booted_kept : (w : World) → P w.db → P (reconcile_scheduled w).1.db
  unfolding reconcile_scheduled
  booted_kept w k = (requeue_all-Keeps _ 0).at w k

  pruned_kept : (e : Env) (w : World) → P w.db → P (prune_dedupe e w).1.db
  unfolding prune_dedupe prune_dedupe_rows prune_audit_events
  pruned_kept e w k = laws.other w.db _ refl (omega arith) k

  committed_kept :
      (x : Result Db) (w : World)
      → ((db : Db) → x ≡ ok db → P w.db → P db)
      → P w.db
      → P (committed x w).db
  committed_kept (ok db) w h k = h db refl k
  committed_kept (err x) w h k = k

pub step_kept :
    (P : Db → Type 0) (e : Env) (x : Event) (w : World)
    → Allows (actor x) P
    → P w.db
    → P (step e x w).db
unfolding step
step_kept P e (started r) w laws k = (start-Keeps P laws e r).at w k
step_kept P e (arrived listened chat client again m) w laws k =
    (on_new_message-Keeps P laws e listened chat client again m).at w k
step_kept P e (normalizing i) w laws k = (normalize-Keeps P laws e i).at w k
step_kept P e booted w laws k = booted_kept P laws w k
step_kept P e pruning w laws k = pruned_kept P laws e w k
step_kept P e (publishing i) w laws k = (publish-Keeps P laws e i).at w k
step_kept P e (drafting i) w laws k = (post_draft-Keeps P laws e i).at w k
step_kept P e (approve_pressed c) w laws k = (cb_approve-Keeps P laws e c).at w k
step_kept P e (reject_pressed c) w laws k = (cb_reject-Keeps P laws e c).at w k
step_kept P e (decision i d actor) w laws k = (decide-Keeps P laws i d actor).at w k
step_kept P e (tagging i tags actor) w laws k = (edit_tags-Keeps P laws i tags actor).at w k
step_kept P e (request r) w laws k =
    committed_kept P laws (handle e r w.db) w (λ db done. handle_kept P e r laws w.db db done) k
step_kept P e (editing x) w laws k =
    committed_kept P laws (edit e x w.db) w (λ db done. edit_kept P laws e x w.db db done) k
step_kept P e (logging_in c name password) w laws k = login_kept P laws c e name password w k

pub run_kept :
    (P : Db → Type 0)
    → ((a : Who) → Allows a P)
    → (e : Env) (events : List Event) (w : World) → P w.db
    → P (run e events w).db
unfolding run
run_kept P laws e [] w k = k
run_kept P laws e (x ∷ xs) w k =
    run_kept P laws e xs (step e x w) (step_kept P e x w (laws (actor x)) k)
