-- ===== src/Userbot/Ingest/Turns.antt =====
-- An ingestion, and what it keeps of the posts.
use telegram_cms.Prelude.{ℕ, false, Option, none, arith, ◌≡◌, refl}
use telegram_cms.Models.{SourceChannel, MediaRef}
use telegram_cms.World.{Db, World}
use telegram_cms.Env.{Env}
use telegram_cms.Lifecycle.{ingester}
use telegram_cms.Lifecycle.Laws.{Allows, same_key}
use telegram_cms.Lifecycle.Rows.{silent-update, event-kept}
use telegram_cms.Userbot.Media.{Message, Client}
use telegram_cms.Userbot.Ingest.{
  new_post, is_refused, added_post, set_media, ingest_message, refs_of,
}
use telegram_cms.Userbot.Ingest.Rows.{ingest_message-Keeps}

module _ (P : Db → Type 0) (laws : Allows ingester P) where
  added_kept :
      (ch : ℕ) (m : Message) (now : ℕ) (db : Db)
      → is_refused ch m.id db ≡ false
      → P db
      → P (added_post ch m now db)
  unfolding is_refused
  added_kept ch m now db new h =
      event-kept P laws db.sequence none _ _ now _
        (laws.insert refl (new_post db.sequence ch m now) db refl refl (ground (arith, new)) h)

  set_media_kept :
      (i : ℕ) (ref : Option MediaRef) (now : ℕ) (db : Db) → P db → P (set_media i ref now db)
  unfolding set_media
  set_media_kept i ref now db h = event-kept P laws i none _ _ now _ (
      silent-update P laws i (λ p. record p { raw_media_refs = refs_of ref })
        (same_key _ (λ p. refl)) (λ p. refl) db h)

  pub ingest_message_kept :
      (e : Env) (c : Client) (m : Message) (ch : SourceChannel) (w : World)
      → P w.db
      → P (ingest_message e c m ch w).1.db
  ingest_message_kept e c m ch w h =
      ingest_message-Keeps P e c m ch w h (λ new. added_kept ch.id m w.now w.db new h)
        (λ ref now db k. set_media_kept w.db.sequence ref now db k)
