-- ===== src/Userbot/Media.antt =====
-- userbot/ingest.py: the media of a Telegram message, and their download.
pub mod Target
pub mod Untouched
use telegram_cms.Prelude.{
  ℕ, zero, suc, ◌+◌, ◌*◌, Text, codes, text_or, is_empty, Bool, true, false, not, ◌&&◌, ◌||◌,
  Option, none, some, List, [], ◌∷◌, ◌++◌, any, keep, take, leb, ltb, ◌==◌, if◌then◌else◌, is_some,
  length,
}
use telegram_cms.Enums.{MediaType, PostState, EventAction, media_value, state_eq}
use telegram_cms.Models.{Post, SourceChannel, MediaRef, has_media, has_media_omitted}
use telegram_cms.World.{
  Db, World, Exn, flood_wait, Result, ok, err, Exec, ◌>>=◌, ◌>>◌, pure, raise, get_db, commit,
  try_except, sleep, get_post, get_channel, update_post, add_event, file_exists, enqueue_normalize,
}
use telegram_cms.Env.{Env}
use telegram_cms.Worker.Reconcile.{sort_posts, requeue_all}

-- The attributes of Telethon's message that are read: those that are tested for `None` as tests.
pub record Document : Type 0 where
  pub size : Option ℕ
  pub mime_type : Option Text

pub record Message : Type 0 where
  pub id : ℕ
  pub raw_text : Text
  pub message : Text
  pub photo : Bool
  pub video : Bool
  pub video_note : Bool
  pub voice : Bool
  pub gif : Bool
  pub audio : Bool
  pub document : Option Document

-- What a call of `download_media` does: it writes the file, finds nothing, or raises.
pub data Download : Type 0 where
  saved : Download
  nothing : Download
  raised : Exn → Download

-- The client's answers to the first call, and to the one that is made after a flood wait.
pub record Client : Type 0 where
  pub first : Download
  pub second : Download

unfoldable pub media_kind : Message → Option MediaType
media_kind m =
    if m.photo
    then some MediaType.photo
    else if m.video
    then some (if m.video_note then MediaType.video_note else MediaType.video)
    else if m.voice
    then some MediaType.voice
    else if m.gif
    then some MediaType.animation
    else if m.audio
    then some MediaType.audio
    else if is_some m.document
    then some MediaType.document
    else none

-- `getattr(message.document, "size", 0) or 0`
abbrev pub size_of : Option Document → ℕ
size_of none = 0
size_of (some d) = elim d.size [ none ↦ 0 | some n ↦ n ]

abbrev pub mime_of : Option Document → Option Text
mime_of none = none
mime_of (some d) = d.mime_type

-- `split("/")[-1]`
abbrev after_slash : Text → Text → Text
after_slash acc [] = acc
after_slash acc (c ∷ cs) = after_slash (if c == b'/' then [] else acc ++ (c ∷ [])) cs

abbrev pub extension : Option Text → Text
extension none = []
extension (some mime) = after_slash [] mime

-- `f"{post_id}_{idx}_{kind.value}.{ext or 'bin'}"`
abbrev pub file_name : Env → ℕ → MediaType → Text → ℕ → Text
file_name e post_id kind ext idx =
    e.decimal post_id
    ++ (b'_' ∷ (e.decimal idx ++ (b'_' ∷ (media_value kind ++ (b'.' ∷ text_or ext (codes "bin"))))))

abbrev pub target : Env → ℕ → MediaType → Text → ℕ → Text
target e post_id kind ext idx = e.media_dir ++ (b'/' ∷ file_name e post_id kind ext idx)

-- `while target.exists(): idx += 1`, on fuel.
pub free_index : (ℕ → Text) → World → ℕ → ℕ → ℕ
free_index path w zero idx = idx
free_index path w (suc fuel) idx =
    let rest = free_index path w fuel (suc idx) in if file_exists (path idx) w then rest else idx

-- One more round than there are files.
unfoldable pub free_path : Env → ℕ → MediaType → Text → World → ℕ
unfolding free_index
free_path e post_id kind ext w = free_index (target e post_id kind ext) w (suc (length w.files)) 0

write_file : Text → Text → World → World
write_file path name w = record w {
  files =
      w.files
      ++ (record { path = path; name = name; mtime = w.now; is_file = true; removable = true }
          ∷ []);
}

-- One call; true where a file was written.
call_download : Download → Text → Text → Exec Bool
unfolding write_file
call_download saved path name w = (ok true, write_file path name w)
call_download nothing path name w = (ok false, w)
call_download (raised x) path name w = (err x, w)

-- A flood wait is slept off, and the call made again.
after_flood : Download → Text → Text → Exn → Exec Bool
unfolding call_download
after_flood again path name (flood_wait seconds) = do
  sleep ((seconds + 1) * 1000)
  call_download again path name
after_flood again path name x = raise x

download_to : Client → Message → MediaType → ℕ → Text → Text → Exec (Option MediaRef)
unfolding call_download after_flood
download_to client m kind size path name = do
  written ← try_except (call_download client.first path name) (after_flood client.second path name)
  pure (
      if written
      then some (record {
        kind = kind;
        file = path;
        size = size;
        mime = mime_of m.document;
        omitted = false;
      })
      else none)

download_kind : Env → Client → Message → ℕ → SourceChannel → MediaType → Exec (Option MediaRef)
unfolding download_to free_path
download_kind e client m post_id c kind w =
    let size = size_of m.document in
    let ext = extension (mime_of m.document) in
    let idx = free_path e post_id kind ext w in
    if not (size == 0) && ltb c.max_media_size_bytes size
    then (
      ok (some (record { kind = kind; file = []; size = size; mime = none; omitted = true })),
      w,
    )
    else download_to client m kind size (target e post_id kind ext idx)
        (file_name e post_id kind ext idx) w

unfoldable pub download_media : Env → Client → Message → ℕ → SourceChannel → Exec (Option MediaRef)
unfolding media_kind download_kind
download_media e client m post_id c w = elim (media_kind m) [
  | none ↦ (ok none, w)
  | some kind ↦ download_kind e client m post_id c kind w
]
