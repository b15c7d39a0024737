-- ===== src/Userbot/Ingest/Rows.antt =====
-- What an ingestion leaves in the table of posts.
use telegram_cms.Prelude.{
  ℕ, Bool, true, false, Option, none, some, [], ◌∷◌, any, any-append, any-modify, arith, ◌≡◌, refl,
  ◌∙◌, inl, inr, Bool-cases, ◌==◌,
}
use telegram_cms.Models.{Post, SourceChannel, MediaRef}
use telegram_cms.World.{
  Db, World, Result, ok, ◌>>◌, pure, commit, get_post, enqueue_job, enqueue_normalize, push, up,
  os_down, client_down, Redis, JobCall, Queue, Job,
}
use telegram_cms.World.Frames.{Frames}
use telegram_cms.World.Keeps.{Keeps, Keeps-bind, Keeps-pure, Keeps-Frames}
use telegram_cms.Env.{Env}
use telegram_cms.Userbot.Media.{Message, Client}
use telegram_cms.Userbot.Media.Untouched.{download_media-db}
use telegram_cms.Userbot.Ingest.{
  is_message, new_post, is_refused, added_post, set_media, record_media, ingest_message, refs_of,
}

push-db : (r : Redis) (j : Job) → Frames (λ (w : World). w.db) (push r j)
push-db up j = record { at = λ w. refl }
push-db os_down j = record { at = λ w. refl }
push-db client_down j = record { at = λ w. refl }

pub enqueue_job-db :
    (c : JobCall) (q : Queue) (d : Option ℕ) → Frames (λ (w : World). w.db) (enqueue_job c q d)
unfolding enqueue_job
enqueue_job-db c q d = record { at = λ w. (push-db w.redis _).at w }

module _ (P : Db → Type 0) (i : ℕ)
    (keeps : (ref : Option MediaRef) (now : ℕ) (db : Db) → P db → P (set_media i ref now db)) where
  record_media-Keeps : (ref : Option MediaRef) → Keeps P (record_media i ref)
  unfolding record_media
  record_media-Keeps ref = record { at = λ w h. go w h (get_post i w.db) }
    where
      go :
          (w : World)
          → P w.db
          → (o : Option Post)
          → P
              (elim o as (λ _. Result (Option Post) × World) [
                | none ↦ (ok none, w)
                | some p ↦
                    (do
                      commit (set_media i ref w.now)
                      enqueue_normalize i
                      pure (some (record p { raw_media_refs = refs_of ref })))
                      w
              ]).1.db
      go w h none = h
      go w h (some p) =
          (Keeps-bind P _ _ (Keeps-Frames P _ (enqueue_job-db _ _ _)) (λ _. Keeps-pure P _)).at
            (record w { db = set_media i ref w.now w.db }) (keeps ref w.now w.db h)

-- An ingestion adds a row at most, and then sets the media of that row alone.
pub ingest_message-adds :
    (P : Db → Type 0) (e : Env) (c : Client) (m : Message) (ch : SourceChannel) (w : World)
    → is_refused ch.id m.id w.db ≡ false
    → P (added_post ch.id m w.now w.db)
    → ((ref : Option MediaRef) (now : ℕ) (db : Db) → P db → P (set_media w.db.sequence ref now db))
    → P (ingest_message e c m ch w).1.db
unfolding ingest_message
ingest_message-adds P e c m ch w new added sets = rw new (
    (Keeps-bind P _ _ (Keeps-Frames P _ (download_media-db e c m w.db.sequence ch))
        (record_media-Keeps P w.db.sequence sets)).at
      (record w { db = added_post ch.id m w.now w.db }) added)

pub ingest_message-Keeps :
    (P : Db → Type 0) (e : Env) (c : Client) (m : Message) (ch : SourceChannel) (w : World)
    → P w.db
    → (is_refused ch.id m.id w.db ≡ false → P (added_post ch.id m w.now w.db))
    → ((ref : Option MediaRef) (now : ℕ) (db : Db) → P db → P (set_media w.db.sequence ref now db))
    → P (ingest_message e c m ch w).1.db
unfolding ingest_message
ingest_message-Keeps P e c m ch w h adds sets = elim (Bool-cases (is_refused ch.id m.id w.db)) [
  | inl old ↦ rw old h
  | inr new ↦ ingest_message-adds P e c m ch w new (adds new) sets
]

abbrev pub has_message : ℕ → ℕ → Db → Bool
has_message channel_id message_id db = any (is_message channel_id message_id) db.posts

pub set_media-has_message :
    (a b i : ℕ) (ref : Option MediaRef) (now : ℕ) (db : Db)
    → has_message a b (set_media i ref now db) ≡ has_message a b db
unfolding set_media
set_media-has_message a b i ref now db =
    any-modify (is_message a b) (λ (p : Post). p.id == i)
      (λ (p : Post). record p { raw_media_refs = refs_of ref }) db.posts (λ p. refl)

-- A message that was not refused has its row after its ingestion, however that ended.
pub ingest_message-has_message :
    (e : Env) (c : Client) (m : Message) (ch : SourceChannel) (w : World)
    → is_refused ch.id m.id w.db ≡ false
    → has_message ch.id m.id (ingest_message e c m ch w).1.db ≡ true
ingest_message-has_message e c m ch w new =
    ingest_message-adds (λ db. has_message ch.id m.id db ≡ true) e c m ch w new
      (ground (
        arith,
        any-append (is_message ch.id m.id) w.db.posts (new_post w.db.sequence ch.id m w.now ∷ []),
      ))
      (λ ref now db h. set_media-has_message ch.id m.id w.db.sequence ref now db ∙ h)

-- Once a message was ingested, whether that returned or raised, another ingestion of it returns `None` and
-- changes nothing: no row is added, no file is written, no job is queued.
pub ingest_message_again :
    (e : Env) (c d : Client) (m : Message) (ch : SourceChannel) (w : World)
    → let w' = (ingest_message e c m ch w).1 in ingest_message e d m ch w' ≡ (ok none, w')
unfolding ingest_message is_refused
ingest_message_again e c d m ch w = elim (Bool-cases (is_refused ch.id m.id w.db)) [
  | inl old ↦ rw (old, old) refl
  | inr new ↦ ground (arith, ingest_message-has_message e c m ch w new)
]
