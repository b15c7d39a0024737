-- ===== src/Userbot/Listening/Turns.antt =====
-- The userbot's start and its handler of a new message, and what they keep of the posts.
use telegram_cms.Prelude.{ℕ, suc, ℤ, none, some, List, [], ◌∷◌, ◌++◌}
use telegram_cms.Models.{SourceChannel, Post}
use telegram_cms.World.{Db, Exn, flood_wait, Exec, pure, get_db, sleep, enqueue_normalize}
use telegram_cms.World.Keeps.{Keeps, Keeps-bind, Keeps-pure, Keeps-Frames, Keeps-try, Keeps-if}
use telegram_cms.Env.{Env}
use telegram_cms.Worker.Reconcile.{requeue_all}
use telegram_cms.Userbot.Media.{Message, Client}
use telegram_cms.Userbot.Ingest.{reconcile_pending}
use telegram_cms.Userbot.Ingest.Rows.{enqueue_job-db}
use telegram_cms.Userbot.Listening.{
  ChannelMap, find_chat, try_ingest, skip_message, backfill_all, backfill, Remote, listen_all,
  start, retry_message, on_new_message, load_channels,
}
use telegram_cms.Lifecycle.{ingester}
use telegram_cms.Lifecycle.Laws.{Allows}
use telegram_cms.Userbot.Ingest.Turns.{ingest_message_kept}

module _ (P : Db → Type 0) (laws : Allows ingester P) where
  requeue_all-Keeps : (ps : List Post) (n : ℕ) → Keeps P (requeue_all enqueue_normalize ps n)
  unfolding requeue_all
  requeue_all-Keeps [] n = record { at = λ w h. h }
  requeue_all-Keeps (p ∷ ps) n = record {
    at =
        (Keeps-bind P _ _ (Keeps-Frames P _ (enqueue_job-db _ _ _))
          (λ _. requeue_all-Keeps ps (suc n))).at;
  }

  reconcile_pending-Keeps : Keeps P reconcile_pending
  unfolding reconcile_pending
  reconcile_pending-Keeps = record { at = λ w. (requeue_all-Keeps _ 0).at w }

  sleep-Keeps : (n : ℕ) → Keeps P (sleep n)
  sleep-Keeps n = record { at = λ w h. h }

  module _ (e : Env) where
    try_ingest-Keeps :
        (c : SourceChannel) (client : Client) (m : Message) (handler : Exn → Exec (Unit {0}))
        → ((x : Exn) → Keeps P (handler x))
        → Keeps P (try_ingest e c client m handler)
    unfolding try_ingest
    try_ingest-Keeps c client m handler h =
        Keeps-try P _ _
          (Keeps-bind P _ _ (record { at = λ w. ingest_message_kept P laws e client m c w })
            (λ _. Keeps-pure P tt))
          h

    skip_message-Keeps : (x : Exn) → Keeps P (skip_message x)
    unfolding skip_message
    skip_message-Keeps (flood_wait s) = sleep-Keeps _
    skip_message-Keeps _ = Keeps-pure P tt

    backfill_all-Keeps :
        (c : SourceChannel) (ms : List (Message × Client)) → Keeps P (backfill_all e c ms)
    unfolding backfill_all
    backfill_all-Keeps c [] = Keeps-pure P tt
    backfill_all-Keeps c ((m, client) ∷ rest) =
        Keeps-bind P _ _ (try_ingest-Keeps c client m skip_message skip_message-Keeps)
          (λ _. backfill_all-Keeps c rest)

    backfill-Keeps :
        (c : SourceChannel) (messages : ℕ → List (Message × Client))
        → Keeps P (backfill e c messages)
    unfolding backfill
    backfill-Keeps c messages = record { at = λ w. (backfill_all-Keeps c _).at w }

    listen_all-Keeps :
        (r : Remote) (cs : List SourceChannel) (listened : ChannelMap)
        → Keeps P (listen_all e r cs listened)
    unfolding listen_all
    listen_all-Keeps r [] listened = Keeps-pure P listened
    listen_all-Keeps r (c ∷ cs) listened =
        Keeps-if P (r.resolves c) _ _
          (Keeps-bind P _ _ (backfill-Keeps c (r.messages c))
            (λ _. listen_all-Keeps r cs (listened ++ ((c.telegram_channel_id, c) ∷ []))))
          (listen_all-Keeps r cs listened)

    pub start-Keeps : (r : Remote) → Keeps P (start e r)
    unfolding start
    start-Keeps r =
        Keeps-bind P _ _
          (Keeps-try P _ _ (Keeps-bind P _ _ reconcile_pending-Keeps (λ _. Keeps-pure P tt))
            (λ x. Keeps-pure P tt))
          (λ _.
            Keeps-bind P get_db _ (record { at = λ w h. h })
              (λ db. listen_all-Keeps r (load_channels db) []))

    retry_message-Keeps :
        (c : SourceChannel) (client : Client) (m : Message) (x : Exn)
        → Keeps P (retry_message e c client m x)
    unfolding retry_message
    retry_message-Keeps c client m (flood_wait s) =
        Keeps-bind P _ _ (sleep-Keeps _) (λ _. try_ingest-Keeps c client m _ (λ x. Keeps-pure P tt))
    retry_message-Keeps c client m _ = Keeps-pure P tt

    pub on_new_message-Keeps :
        (listened : ChannelMap) (chat : ℤ) (client again : Client) (m : Message)
        → Keeps P (on_new_message e listened chat client again m)
    unfolding on_new_message
    on_new_message-Keeps listened chat client again m =
        elim (find_chat chat listened)
          as (λ o. Keeps P (elim o as (λ _. Exec (Unit {0})) [
            | none ↦ pure tt
            | some c ↦ try_ingest e c client m (retry_message e c again m)
          ])) [
            | none ↦ Keeps-pure P tt
            | some c ↦ try_ingest-Keeps c client m _ (retry_message-Keeps c again m)
          ]
