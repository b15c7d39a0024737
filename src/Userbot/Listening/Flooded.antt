-- ===== src/Userbot/Listening/Flooded.antt =====
-- A new message whose download meets two flood waits: the retry of the handler does nothing.
use telegram_cms.Prelude.{
  ℕ, ◌+◌, ◌*◌, ℤ, true, false, not, ◌&&◌, none, some, [], ◌∷◌, arith, ◌≡◌, ap, ◌∙◌, ◌==◌, ==-refl,
  ltb, any-append, find-append,
}
use telegram_cms.Enums.{MediaType}
use telegram_cms.Models.{Post, SourceChannel}
use telegram_cms.World.{World, Exn, flood_wait, err, get_post}
use telegram_cms.Env.{Env}
use telegram_cms.Userbot.Media.{Message, Client, Download, media_kind, size_of, download_media}
use telegram_cms.Userbot.Ingest.{is_refused, new_post, added_post, ingest_message, is_message}
use telegram_cms.Userbot.Listening.{
  ChannelMap, find_chat, try_ingest, retry_message, on_new_message,
}

module _ (e : Env) (client : Client) (m : Message) (c : SourceChannel) (w : World)
    (kind : MediaType) (s : ℕ) (x : Exn) (new : is_refused c.id m.id w.db ≡ false)
    (has_kind : media_kind m ≡ some kind)
    (fits : (not (size_of m.document == 0) && ltb c.max_media_size_bytes (size_of m.document))
      ≡ false)
    (first : client.first ≡ Download.raised (flood_wait s))
    (second : client.second ≡ Download.raised x) where
  ingest_flooded :
      ingest_message e client m c w
      ≡ (err x, record w { db = added_post c.id m w.now w.db; now = w.now + (s + 1) * 1000 })
  unfolding ingest_message download_media
  ingest_flooded = ground (arith, new, has_kind, fits, first, second)

  stopped : World
  stopped = record w { db = added_post c.id m w.now w.db; now = w.now + (s + 1) * 1000 }

  -- What the retry leaves: the clock apart, the world as the first attempt left it.
  retried :
      (again : Client) (y : Exn) (v : World)
      → is_refused c.id m.id v.db ≡ true
      → ((retry_message e c again m y v).1.db ≡ v.db)
        × ((retry_message e c again m y v).1.jobs ≡ v.jobs)
        × ((retry_message e c again m y v).1.files ≡ v.files)
  unfolding retry_message try_ingest ingest_message
  retried again (flood_wait t) v old =
      (ground (arith, old), ground (arith, old), ground (arith, old))
  retried again y v old = (ground (arith, old), ground (arith, old), ground (arith, old))

  -- A new message of a channel that is listened to, whose media is within the limit and whose download raises
  -- a flood wait and then, after that wait, an exception of any kind, ends as a pending post without media:
  -- whatever the downloads of the handler's own retry would do, no file is written and no job is queued.
  pub on_new_message_flooded :
      (again : Client) (listened : ChannelMap) (chat : ℤ)
      → find_chat chat listened ≡ some c
      → get_post w.db.sequence w.db ≡ none
      → let w' = (on_new_message e listened chat client again m w).1 in
        (get_post w.db.sequence w'.db ≡ some (new_post w.db.sequence c.id m w.now))
        × (w'.jobs ≡ w.jobs)
        × (w'.files ≡ w.files)
  unfolding on_new_message try_ingest is_refused stopped
  on_new_message_flooded again listened chat listens fresh =
      let (db, jobs, files) = retried again x stopped taken in
      rw handled (ap (get_post w.db.sequence) db ∙ row, jobs, files)
    where
      handled :
          (on_new_message e listened chat client again m w).1
          ≡ (retry_message e c again m x stopped).1
      handled = ground (arith, listens, ingest_flooded)

      taken : is_refused c.id m.id stopped.db ≡ true
      taken = ground (
        arith,
        any-append (is_message c.id m.id) w.db.posts (new_post w.db.sequence c.id m w.now ∷ []),
      )

      row : get_post w.db.sequence stopped.db ≡ some (new_post w.db.sequence c.id m w.now)
      row = find-append (λ (p : Post). p.id == w.db.sequence) w.db.posts _ fresh (==-refl _)
