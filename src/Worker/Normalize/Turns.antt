-- ===== src/Worker/Normalize/Turns.antt =====
-- The normalize job, and the turn of its post.
use telegram_cms.Prelude.{
  ℕ, Text, Bool, true, false, Option, none, some, [], ◌∷◌, ◌≡◌, refl, subst, arith, if◌then◌else◌,
}
use telegram_cms.Enums.{PostState, EventAction, state_in}
use telegram_cms.Models.{Post, SourceChannel, Payload, dedupe_hash, normalized}
use telegram_cms.World.{
  Db, World, Result, ok, err, template_error, ◌>>◌, pure, commit, get_post, get_channel,
}
use telegram_cms.World.Keeps.{Keeps, Keeps-bind, Keeps-pure, Keeps-Frames}
use telegram_cms.Env.{Env}
use telegram_cms.Lifecycle.{normalizer, phase, Life, repeated, is_final}
use telegram_cms.Lifecycle.Laws.{Allows, same_key}
use telegram_cms.Lifecycle.Rows.{once, event-kept}
use telegram_cms.Userbot.Ingest.Rows.{enqueue_job-db}
use telegram_cms.Shared.Fingerprint.{compute_dedupe_hash}
use telegram_cms.Worker.Normalize.{
  Outcome, not_found, skip, duplicate, enqueued_publish, Transformed, add_ai_event, ai_step,
  write_normalized, normalized_post, enqueue_for, decide_route, finish, render_and_finish,
  with_channel, normalize, is_duplicate,
}

not_final :
    (s : PostState)
    → state_in s (PostState.published ∷ PostState.rejected ∷ []) ≡ false
    → is_final s ≡ false
not_final PostState.published h = h
not_final PostState.rejected h = h
not_final PostState.pending h = refl
not_final PostState.approved h = refl
not_final PostState.scheduled h = refl
not_final PostState.publishing h = refl
not_final PostState.publish_failed h = refl

module _ (P : Db → Type 0) (laws : Allows normalizer P) (e : Env) (i : ℕ) where
  enqueue_for-Keeps : (o : Outcome) → Keeps P (enqueue_for i o)
  unfolding enqueue_for
  enqueue_for-Keeps enqueued_publish =
      Keeps-bind P _ _ (Keeps-Frames P _ (enqueue_job-db _ _ _)) (λ _. Keeps-pure P _)
  enqueue_for-Keeps _ =
      Keeps-bind P _ _ (Keeps-Frames P _ (enqueue_job-db _ _ _)) (λ _. Keeps-pure P _)

  module _ (p : Post) (c : SourceChannel) where
    logged_kept :
        (now : ℕ) (db : Db) (o : Option (EventAction × Payload))
        → P db
        → P (add_ai_event i o now db)
    logged_kept now db none k = k
    logged_kept now db (some (action, payload)) k = event-kept P laws i none action payload now db k

    written_kept :
        (t : Transformed) (h : Text) (s : PostState) (action : EventAction) (payload : Payload)
        (now : ℕ) (db : Db)
        → ((q : Post)
            → get_post i db ≡ some q
            → Life normalizer (phase q) (record { state = s; message = q.published_message_id }))
        → P db
        → P (write_normalized e i p c t h s action payload now db)
    unfolding write_normalized
    written_kept t h s action payload now db life k =
        event-kept P laws i none action payload now _ (
          logged_kept now _ t.event (
            laws.update (λ q. record (normalized_post e c t h q) { state = s })
              (same_key _ (λ q. refl)) i db life k))

    finish_kept :
        (text : Text) (w : World)
        → get_post i w.db ≡ some p
        → is_final p.state ≡ false
        → P w.db
        → P (finish e i p c text w).1.db
    unfolding finish
    finish_kept text w found live k =
        go (is_duplicate e (compute_dedupe_hash e p.raw_text p.raw_media_refs) w.now w.db)
      where
        same :
            (q : Post)
            → get_post i w.db ≡ some q
            → Life normalizer
                (phase q)
                (record { state = p.state; message = q.published_message_id })
        same q at =
            subst
              (λ (s : PostState).
                Life normalizer (phase q) (record { state = s; message = q.published_message_id }))
              (ground (arith, found, at)) Life.here

        go :
            (b : Bool)
            → let t = ai_step e c p text in
              let h = compute_dedupe_hash e p.raw_text p.raw_media_refs in
              P
                (if b
                  then (do
                    commit (
                        write_normalized e i p c t h PostState.rejected EventAction.duplicate
                          (dedupe_hash h)
                          w.now)
                    pure duplicate)
                      w
                  else (do
                    commit
                        (write_normalized e i p c t h p.state EventAction.edited normalized w.now)
                    enqueue_for i (decide_route c.policy false))
                      w).1.db
        go true =
            written_kept _ _ PostState.rejected _ _ w.now w.db
              (λ q at. once (repeated refl (ground (arith, found, live, at)) refl)) k
        go false =
            (enqueue_for-Keeps (decide_route c.policy false)).at _
              (written_kept _ _ p.state EventAction.edited normalized w.now w.db same k)

    rendered_kept :
        (o : Option Text) (w : World)
        → get_post i w.db ≡ some p
        → is_final p.state ≡ false
        → P w.db
        → P
            (elim o as (λ _. Result Outcome × World) [
              | none ↦ (err template_error, w)
              | some text ↦ finish e i p c text w
            ]).1.db
    rendered_kept none w found live k = k
    rendered_kept (some text) w found live k = finish_kept text w found live k

  with_channel_kept :
      (p : Post) (o : Option SourceChannel) (w : World)
      → get_post i w.db ≡ some p
      → is_final p.state ≡ false
      → P w.db
      → P (with_channel e i p o w).1.db
  unfolding with_channel render_and_finish
  with_channel_kept p none w found live k = k
  with_channel_kept p (some c) w found live k = rendered_kept p c _ w found live k

  pub normalize-Keeps : Keeps P (normalize e i)
  unfolding normalize
  normalize-Keeps = record { at = λ w k. go w k (get_post i w.db) refl }
    where
      read :
          (p : Post) (w : World)
          → get_post i w.db ≡ some p
          → P w.db
          → (b : Bool) → state_in p.state (PostState.published ∷ PostState.rejected ∷ []) ≡ b
          → P
              (if b
                then (ok (skip p.state), w)
                else with_channel e i p (get_channel p.source_channel_id w.db) w).1.db
      read p w found k true s = k
      read p w found k false s = with_channel_kept p _ w found (not_final p.state s) k

      go :
          (w : World)
          → P w.db
          → (o : Option Post) → get_post i w.db ≡ o
          → P
              (elim o as (λ _. Result Outcome × World) [
                | none ↦ (ok not_found, w)
                | some p ↦
                    if state_in p.state (PostState.published ∷ PostState.rejected ∷ [])
                    then (ok (skip p.state), w)
                    else with_channel e i p (get_channel p.source_channel_id w.db) w
              ]).1.db
      go w k none found = k
      go w k (some p) found =
          read p w found k (state_in p.state (PostState.published ∷ PostState.rejected ∷ [])) refl
