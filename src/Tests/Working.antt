-- ===== src/Tests/Working.antt =====
-- The theorems of the worker and of the text operations at concrete inputs.
use telegram_cms.Prelude.{
  ◌≤◌, ◌⊎◌, ◌≡◌, refl, true, false, none, some, [], ◌∷◌, ◌++◌, codes, arith, length, All,
}
use telegram_cms.Enums.{PostState}
use telegram_cms.Models.{Post}
use telegram_cms.World.{post_draft, bot, World, MediaFile, ok, get_post, file_exists}
use telegram_cms.Bot.Publisher.{text_to_send}
use telegram_cms.Shared.Fingerprint.{
  compute_dedupe_hash, text_fingerprint, media_fingerprint, clean_text,
}
use telegram_cms.Shared.Transform.{TransformResult, transform_text}
use telegram_cms.Shared.Watermark.{apply_watermark, rstrip, strip}
use telegram_cms.Shared.Watermark.Untagged.{tagged, tagged-apply_watermark}
use telegram_cms.Worker.Normalize.{
  normalize, normalize_text, is_duplicate, should_ai_transform, options_of, template_body,
}
use telegram_cms.Worker.Normalize.Normalized.{IsNormalized, normalize-IsNormalized}
use telegram_cms.Worker.Normalize.Routes.{hash_of, normalize_brand_lost}
use telegram_cms.Worker.Reconcile.{prune_dedupe, reconcile_scheduled, overdue_posts, due_time}
use telegram_cms.Worker.Reconcile.Retention.{
  is_duplicate-prune_dedupe, file_exists-prune_dedupe, prune_dedupe-failed_media,
}
use telegram_cms.Worker.Reconcile.Requeue.{jobs_for, publish_job, IsSorted}
use telegram_cms.Worker.Reconcile.Due.{IsDue, reconcile_scheduled-overdue}
use telegram_cms.Worker.Reconcile.Earliest.{Has}
use telegram_cms.Tests.Samples.{world, db, post, channel, env, chars}

abbrev result : TransformResult
result = record {
  text = codes "short";
  model = codes "m";
  prompt_tokens = 0;
  completion_tokens = 0;
  latency_ms = 5;
}

renders :
    normalize_text env db (template_body channel db) (codes "raw") (codes "Source") []
    ≡ some (codes "raw")
unfolding normalize_text strip
renders = refl

fresh : is_duplicate env (hash_of env post) 1000000 db ≡ false
unfolding is_duplicate
fresh = refl

-- The channel's queue: the post keeps its state, and its draft is asked for.
normalize-IsNormalized_example :
    (q : Post) × (get_post 5 (normalize env 5 world).1.db ≡ some q)
    × IsNormalized env channel post (codes "raw") post.state q
    × ((normalize env 5 world).1.jobs
        ≡ record { call = post_draft 5; queue = bot; defer_by = none } ∷ [])
unfolding is_duplicate
normalize-IsNormalized_example =
    normalize-IsNormalized env 5 world post channel (codes "raw") refl refl refl renders refl

abbrev seen : World
seen = record world {
  db = record db { dedupe = record { hash = hash_of env post; published_at = 999999 } ∷ [] };
}

seen_before : is_duplicate env (hash_of env post) 1000000 seen.db ≡ true
unfolding is_duplicate compute_dedupe_hash text_fingerprint media_fingerprint clean_text
seen_before = refl

seen_renders :
    normalize_text env seen.db (template_body channel seen.db) (codes "raw") (codes "Source") []
    ≡ some (codes "raw")
unfolding normalize_text strip
seen_renders = refl

transforms : transform_text env (codes "raw") (options_of env channel) ≡ ok result
unfolding transform_text strip
transforms = refl

asks : should_ai_transform env channel ≡ true
unfolding should_ai_transform
asks = refl

normalize_brand_lost_example :
    (q : Post) × (get_post 5 (normalize env 5 world).1.db ≡ some q)
    × (q.normalized_text
        ≡ some (
            rstrip chars (apply_watermark chars (codes "short") none false)
            ++ (codes "\n\n" ++ codes "w")))
    × (text_to_send q ≡ codes "short")
normalize_brand_lost_example =
    normalize_brand_lost env 5 world post channel (codes "raw") refl refl refl renders result b's'
      b'w' (codes "hort") [] fresh refl asks transforms refl refl refl

is_duplicate-prune_dedupe_example :
    is_duplicate env (codes "h") 2000000 (prune_dedupe env world).1.db
    ≡ is_duplicate env (codes "h") 2000000 db
is_duplicate-prune_dedupe_example =
    is_duplicate-prune_dedupe env (codes "h") world 2000000 (omega arith)

abbrev photo_file : MediaFile
photo_file = record {
  path = codes "/media/a";
  name = codes "a";
  mtime = 0;
  is_file = true;
  removable = true;
}

-- Long after the file was written.
abbrev late : World
late = record world {
  now = 9000000000;
  files = photo_file ∷ [];
  db = record db { posts = record post { media_paths = codes "/media/a" ∷ [] } ∷ [] };
}

file_exists-prune_dedupe_example :
    file_exists (codes "/media/a") (prune_dedupe env late).1 ≡ file_exists (codes "/media/a") late
file_exists-prune_dedupe_example = file_exists-prune_dedupe env late (codes "/media/a") refl

abbrev failed_post : Post
failed_post = record post { state = PostState.publish_failed; media_paths = codes "/media/a" ∷ [] }

abbrev late_failed : World
late_failed = record late { db = record db { posts = failed_post ∷ [] } }

prune_dedupe-failed_media_example :
    file_exists (codes "/media/a") (prune_dedupe env late_failed).1 ≡ false
prune_dedupe-failed_media_example =
    prune_dedupe-failed_media env late_failed failed_post photo_file refl refl refl refl refl refl
      (omega arith)

abbrev overdue_world : World
overdue_world = record world {
  db = record db {
    posts = record post { state = PostState.scheduled; scheduled_for = some 999000 } ∷ [];
  };
}

reconcile_scheduled-overdue_example :
    ((reconcile_scheduled overdue_world).0 ≡ ok (length (overdue_posts overdue_world)))
    × ((reconcile_scheduled overdue_world).1.jobs
        ≡ [] ++ jobs_for publish_job (overdue_posts overdue_world))
    × (length (overdue_posts overdue_world) ≤ 100)
    × All (IsDue 1000000) (overdue_posts overdue_world)
    × IsSorted due_time (overdue_posts overdue_world)
    × All
        (λ (p : Post).
          (¬ IsDue 1000000 p)
          ⊎ Has p (overdue_posts overdue_world)
          ⊎ ((length (overdue_posts overdue_world) ≡ 100)
              × All (λ (q : Post). due_time q ≤ due_time p) (overdue_posts overdue_world)))
        overdue_world.db.posts
reconcile_scheduled-overdue_example = reconcile_scheduled-overdue overdue_world refl

tagged-apply_watermark_example :
    (tagged chars b'#' (apply_watermark chars (codes "a #b @c") none true) ≡ false)
    × (tagged chars b'@' (apply_watermark chars (codes "a #b @c") none true) ≡ false)
tagged-apply_watermark_example =
    tagged-apply_watermark chars (codes "a #b @c") (λ c h. ground arith) refl refl
