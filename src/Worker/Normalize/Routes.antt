-- ===== src/Worker/Normalize/Routes.antt =====
-- What the `normalize` job does on each branch.
use telegram_cms.Prelude.{
  ℕ, Text, codes, true, false, Option, none, some, [], ◌∷◌, ◌++◌, arith, ◌≡◌, refl, ◌∙◌, opt_or,
}
use telegram_cms.Enums.{Policy, PostState, EventAction, state_in}
use telegram_cms.Models.{Post, SourceChannel, Payload, normalized, dedupe_hash}
use telegram_cms.World.{
  Db, World, up, Job, publish, post_draft, bot, ok, get_post, get_channel, enqueue_job, update_post,
}
use telegram_cms.Env.{Env}
use telegram_cms.Bot.Cards.{label_of}
use telegram_cms.Bot.Publisher.{text_to_send}
use telegram_cms.Bot.Publisher.Stages.{get_post-update}
use telegram_cms.Shared.Transform.{TransformResult, transform_text}
use telegram_cms.Shared.Fingerprint.{compute_dedupe_hash}
use telegram_cms.Shared.Watermark.{apply_watermark, rstrip}
use telegram_cms.Worker.Normalize.{
  Outcome, enqueued_publish, enqueued_draft, duplicate, skip, normalize, normalize_text,
  template_body, tags_for, is_duplicate, decide_route, finish, render_and_finish, with_channel,
  write_normalized, enqueue_for, ai_step, normalized_post, Transformed, should_ai_transform,
  add_ai_event, options_of,
}

-- A published or rejected post is left alone.
pub normalize-skips :
    (e : Env) (i : ℕ) (w : World) (p : Post)
    → get_post i w.db ≡ some p
    → state_in p.state (PostState.published ∷ PostState.rejected ∷ []) ≡ true
    → normalize e i w ≡ (ok (skip p.state), w)
unfolding normalize
normalize-skips e i w p found done = ground (arith, found, done)

abbrev pub hash_of : Env → Post → Text
hash_of e p = compute_dedupe_hash e p.raw_text p.raw_media_refs

-- The job that a post's policy asks for, on the bot's queue at once.
abbrev pub next_job : Policy → ℕ → Job
next_job Policy.auto i = record { call = publish i; queue = bot; defer_by = none }
next_job Policy.queue i = record { call = post_draft i; queue = bot; defer_by = none }

abbrev pub route_of : Policy → Outcome
route_of Policy.auto = enqueued_publish
route_of Policy.queue = enqueued_draft

write_normalized-post :
    (e : Env) (i : ℕ) (p : Post) (c : SourceChannel) (t : Transformed) (h : Text) (s : PostState)
    (action : EventAction) (payload : Payload) (now : ℕ) (db : Db)
    → get_post i db ≡ some p
    → get_post i (write_normalized e i p c t h s action payload now db)
      ≡ some (record (normalized_post e c t h p) { state = s })
unfolding write_normalized
write_normalized-post e i p c t h s action payload now db found =
    events_only t.event
    ∙ get_post-update i (λ q. record (normalized_post e c t h q) { state = s }) db.posts p
        (λ q. refl) found
  where
    written : Db
    written = update_post i (λ q. record (normalized_post e c t h q) { state = s }) db

    events_only :
        (x : Option (EventAction × Payload))
        → get_post i (add_ai_event i x now written) ≡ get_post i written
    events_only none = refl
    events_only (some (a, y)) = refl

enqueue_for-route :
    (i : ℕ) (policy : Policy) (w : World)
    → w.redis ≡ up
    → enqueue_for i (decide_route policy false) w
      ≡ (ok (route_of policy), record w { pool = true; jobs = w.jobs ++ (next_job policy i ∷ []) })
unfolding enqueue_for decide_route enqueue_job
enqueue_for-route i Policy.auto w answers = ground (arith, answers)
enqueue_for-route i Policy.queue w answers = ground (arith, answers)

module _ (e : Env) (i : ℕ) (w : World) (p : Post) (c : SourceChannel) (text : Text)
    (found : get_post i w.db ≡ some p)
    (live : state_in p.state (PostState.published ∷ PostState.rejected ∷ []) ≡ false)
    (has : get_channel p.source_channel_id w.db ≡ some c)
    (renders : normalize_text e w.db
        (template_body c w.db)
        (opt_or p.raw_text [])
        (label_of c)
        (tags_for c)
      ≡ some text) where
  normalize-finish : normalize e i w ≡ finish e i p c text w
  unfolding normalize render_and_finish with_channel
  normalize-finish = ground (arith, found, live, has, renders)

  -- Content that was published within the window: the post is rejected with its columns computed, and
  -- no job is queued.
  pub normalize-duplicate :
      is_duplicate e (hash_of e p) w.now w.db ≡ true
      → ((normalize e i w).0 ≡ ok duplicate)
        × (get_post i (normalize e i w).1.db
            ≡ some (record (normalized_post e c (ai_step e c p text) (hash_of e p) p) {
              state = PostState.rejected;
            }))
        × ((normalize e i w).1.jobs ≡ w.jobs)
  unfolding finish
  normalize-duplicate dup = rw normalize-finish (
      rw dup (
        refl,
        write_normalized-post e i p c (ai_step e c p text) (hash_of e p) PostState.rejected
            EventAction.duplicate (dedupe_hash (hash_of e p)) w.now w.db found,
        refl,
      ))

  -- Other content: the columns are computed, the state stays, and with Redis up the one job that the
  -- channel's policy asks for is queued.
  pub normalize-routes :
      is_duplicate e (hash_of e p) w.now w.db ≡ false
      → w.redis ≡ up
      → ((normalize e i w).0 ≡ ok (route_of c.policy))
        × (get_post i (normalize e i w).1.db
            ≡ some (normalized_post e c (ai_step e c p text) (hash_of e p) p))
        × ((normalize e i w).1.jobs ≡ w.jobs ++ (next_job c.policy i ∷ []))
  unfolding finish
  normalize-routes fresh answers =
      let stored = record w {
        db =
            write_normalized e i p c (ai_step e c p text) (hash_of e p) p.state EventAction.edited
              normalized w.now w.db;
      } in
      let row =
        write_normalized-post e i p c (ai_step e c p text) (hash_of e p) p.state EventAction.edited
          normalized w.now w.db found in
      rw normalize-finish
        (rw fresh (rw (enqueue_for-route i c.policy stored answers) (refl, row, refl)))

  -- Where the channel has its brand on and the model's answer is not empty, the row holds the branded
  -- text, and yet what the publisher takes from the row is the model's answer without the brand.
  pub normalize_brand_lost :
      (r : TransformResult) (x b : ℕ) (answer brand : Text)
      → is_duplicate e (hash_of e p) w.now w.db ≡ false
      → w.redis ≡ up
      → should_ai_transform e c ≡ true
      → transform_text e text (options_of e c) ≡ ok r
      → r.text ≡ x ∷ answer
      → c.watermark_enabled ≡ true
      → c.watermark_text ≡ some (b ∷ brand)
      → (q : Post) × (get_post i (normalize e i w).1.db ≡ some q)
        × (q.normalized_text
            ≡ some (
                rstrip e.chars (apply_watermark e.chars r.text none c.strip_source_tags)
                ++ (codes "\n\n" ++ (b ∷ brand))))
        × (text_to_send q ≡ r.text)
  unfolding ai_step apply_watermark
  normalize_brand_lost r x b answer brand fresh answers on done full shown branded = (
    normalized_post e c (ai_step e c p text) (hash_of e p) p,
    (normalize-routes fresh answers).1,
    ground (arith, on, done, full, shown, branded),
    ground (arith, on, done, full),
  )
