-- ===== src/Userbot/Media/Untouched.antt =====
-- A download does not touch the database.
use telegram_cms.Prelude.{ℕ, ◌+◌, ◌*◌, Text, Option, none, some, arith, ◌≡◌, refl}
use telegram_cms.Enums.{MediaType}
use telegram_cms.Models.{SourceChannel, MediaRef}
use telegram_cms.World.{World, Exn, flood_wait, sleep, Result, ok}
use telegram_cms.World.Frames.{Frames, Frames-bind, Frames-pure, Frames-try, Frames-raise}
use telegram_cms.Env.{Env}
use telegram_cms.Userbot.Media.{
  Message, Client, Download, saved, nothing, raised, call_download, after_flood, download_to,
  download_kind, download_media, size_of, target, extension, mime_of, free_path, file_name,
  media_kind,
}

call_download-db :
    (d : Download) (path name : Text) → Frames (λ (w : World). w.db) (call_download d path name)
unfolding call_download
call_download-db saved path name = record { at = λ w. refl }
call_download-db nothing path name = record { at = λ w. refl }
call_download-db (raised x) path name = record { at = λ w. refl }

sleep-db : (t : ℕ) → Frames (λ (w : World). w.db) (sleep t)
sleep-db t = record { at = λ w. refl }

after_flood-db :
    (d : Download) (path name : Text) (x : Exn)
    → Frames (λ (w : World). w.db) (after_flood d path name x)
unfolding after_flood
after_flood-db d path name (flood_wait s) =
    Frames-bind _ _ _ (sleep-db ((s + 1) * 1000)) (λ _. call_download-db d path name)
after_flood-db d path name _ = Frames-raise _ _

download_to-db :
    (c : Client) (m : Message) (kind : MediaType) (size : ℕ) (path name : Text)
    → Frames (λ (w : World). w.db) (download_to c m kind size path name)
unfolding download_to
download_to-db c m kind size path name =
    Frames-bind _ _ _
      (Frames-try _ _ _ (call_download-db c.first path name) (after_flood-db c.second path name))
      (λ _. Frames-pure _ _)

download_kind-db :
    (e : Env) (c : Client) (m : Message) (i : ℕ) (ch : SourceChannel) (kind : MediaType) (w : World)
    → (download_kind e c m i ch kind w).1.db ≡ w.db
unfolding download_kind
download_kind-db e c m i ch kind w = ground (
  arith,
  (download_to-db c m kind (size_of m.document)
        (target e i kind (extension (mime_of m.document))
          (free_path e i kind (extension (mime_of m.document)) w))
        (file_name e i kind (extension (mime_of m.document))
          (free_path e i kind (extension (mime_of m.document)) w))).at
      w,
)

pub download_media-db :
    (e : Env) (c : Client) (m : Message) (i : ℕ) (ch : SourceChannel)
    → Frames (λ (w : World). w.db) (download_media e c m i ch)
unfolding download_media
download_media-db e c m i ch = record { at = λ w. go w (media_kind m) }
  where
    go :
        (w : World) (o : Option MediaType)
        → (elim o as (λ _. Result (Option MediaRef) × World) [
          | none ↦ (ok none, w)
          | some kind ↦ download_kind e c m i ch kind w
        ]).1.db
          ≡ w.db
    go w none = refl
    go w (some kind) = download_kind-db e c m i ch kind w
