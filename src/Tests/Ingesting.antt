-- ===== src/Tests/Ingesting.antt =====
-- The userbot's ingestion, run on the sample installation.
use telegram_cms.Prelude.{
  ◌≤◌, negsuc, true, false, none, some, [], ◌∷◌, codes, length, any, count, leb, keep, All, arith,
  ◌≡◌, refl, inl,
}
use telegram_cms.Enums.{MediaType, PostState}
use telegram_cms.World.{World, flood_wait, file_exists, get_post}
use telegram_cms.Models.{Post}
use telegram_cms.Userbot.Media.{Message, Client, Download, target, free_path, media_kind}
use telegram_cms.Userbot.Ingest.{
  is_refused, new_post, last_ingested_message_id, is_orphan, reconcile_pending,
}
use telegram_cms.Userbot.Media.Target.{free_path-target}
use telegram_cms.Userbot.Ingest.Rows.{has_message}
use telegram_cms.Userbot.Ingest.Orphans.{reconcile_pending-normalizes, normalizes}
use telegram_cms.Userbot.Listening.{backfill, on_new_message}
use telegram_cms.Userbot.Listening.Backfill.{backfill_lem}
use telegram_cms.Userbot.Listening.Flooded.{on_new_message_flooded}
use telegram_cms.Tests.Samples.{env, world, db, post, channel}

abbrev pub photo : Message
photo = record {
  id = 11;
  raw_text = codes "new";
  message = [];
  photo = true;
  video = false;
  video_note = false;
  voice = false;
  gif = false;
  audio = false;
  document = none;
}

abbrev pub quick : Client
quick = record { first = Download.saved; second = Download.nothing }

abbrev slow : Client
slow = record { first = Download.raised (flood_wait 3); second = Download.raised (flood_wait 60) }

-- A file of the same post is there already.
abbrev cluttered : World
cluttered = record world {
  files =
      record {
        path = target env 6 MediaType.photo [] 0;
        name = codes "old";
        mtime = 0;
        is_file = true;
        removable = true;
      }
      ∷ [];
}

free_path-target_example :
    (file_exists
        (target env 6 MediaType.photo [] (free_path env 6 MediaType.photo [] cluttered))
        cluttered
      ≡ false)
    × (free_path env 6 MediaType.photo [] cluttered ≤ length cluttered.files)
free_path-target_example =
    free_path-target env 6 MediaType.photo [] cluttered (λ i j e. ground (arith, e))

backfill_lem_example :
    let w' = (backfill env channel (λ n. (photo, slow) ∷ []) world).1 in
    All
      (λ (r : Message × Client).
        (has_message 1 r.0.id w'.db ≡ true) × (r.0.id ≤ last_ingested_message_id channel w'.db))
      ((photo, slow) ∷ [])
backfill_lem_example = backfill_lem env channel (λ n. (photo, slow) ∷ []) world refl

not_refused : is_refused 1 11 db ≡ false
unfolding is_refused
not_refused = refl

photo_kind : media_kind photo ≡ some MediaType.photo
unfolding media_kind
photo_kind = refl

on_new_message_flooded_example :
    let w' =
      (on_new_message env ((negsuc 1000, channel) ∷ []) (negsuc 1000) slow quick photo world).1 in
    (get_post 6 w'.db ≡ some (new_post 6 1 photo 1000000)) × (w'.jobs ≡ []) × (w'.files ≡ [])
on_new_message_flooded_example =
    on_new_message_flooded env slow photo channel world MediaType.photo 3 (flood_wait 60)
      not_refused photo_kind refl refl refl quick ((negsuc 1000, channel) ∷ []) (negsuc 1000) refl
      refl

abbrev orphan : Post
orphan = record post { state = PostState.pending }

abbrev restarted : World
restarted = record world { db = record db { posts = orphan ∷ [] } }

orphan_found : is_orphan 1000000 orphan ≡ true
unfolding is_orphan
orphan_found = refl

few_orphans :
    count (λ (q : Post). leb q.received_at 100) (keep (is_orphan 1000000) restarted.db.posts) ≤ 200
unfolding is_orphan
few_orphans = omega arith

reconcile_pending-normalizes_example :
    any (normalizes 5) (reconcile_pending restarted).1.jobs ≡ true
reconcile_pending-normalizes_example =
    reconcile_pending-normalizes restarted orphan refl (inl refl) orphan_found few_orphans
