-- ===== src/Userbot/Ingest.antt =====
-- userbot/ingest.py: a Telegram message becomes a row of `posts`, and the reconcile of rows without media.
pub mod Rows
pub mod Orphans
pub mod Turns
use telegram_cms.Prelude.{
  ℕ, zero, suc, ◌+◌, ◌*◌, Text, codes, text_or, is_empty, Bool, true, false, not, ◌&&◌, ◌||◌,
  Option, none, some, List, [], ◌∷◌, ◌++◌, any, keep, take, leb, ltb, ◌==◌, if◌then◌else◌, is_some,
  length,
}
use telegram_cms.Enums.{MediaType, PostState, EventAction, media_value, state_eq}
use telegram_cms.Models.{Post, SourceChannel, MediaRef, has_media, has_media_omitted}
use telegram_cms.World.{
  Db, World, Exn, flood_wait, Result, ok, err, Exec, ◌>>=◌, ◌>>◌, pure, raise, get_db, commit,
  try_except, sleep, get_post, get_channel, update_post, add_event, file_exists, enqueue_normalize,
}
use telegram_cms.Env.{Env}
use telegram_cms.Userbot.Media.{Message, Client, download_media}
use telegram_cms.Worker.Reconcile.{sort_posts, requeue_all}

-- `raw_text or message or None`
abbrev pub text_of : Message → Option Text
text_of m = elim (text_or m.raw_text m.message) [ [] ↦ none | c ∷ cs ↦ some (c ∷ cs) ]

-- The row's unique key.
abbrev pub is_message : ℕ → ℕ → Post → Bool
is_message channel_id message_id p =
    (p.source_channel_id == channel_id) && (p.source_message_id == message_id)

abbrev pub new_post : ℕ → ℕ → Message → ℕ → Post
new_post i channel_id m now = record {
  id = i;
  source_channel_id = channel_id;
  source_message_id = m.id;
  raw_text = text_of m;
  raw_media_refs = [];
  received_at = now;
  state = PostState.pending;
  normalized_text = none;
  ai_transformed_text = none;
  media_paths = [];
  tag_ids = [];
  scheduled_for = none;
  published_message_id = none;
  published_at = none;
  dedupe_hash = none;
  draft_message_id = none;
}

-- The constraints on a new row: its message is new, and its channel is there.
unfoldable pub is_refused : ℕ → ℕ → Db → Bool
is_refused channel_id message_id db =
    any (is_message channel_id message_id) db.posts || not (is_some (get_channel channel_id db))

abbrev pub added_post : ℕ → Message → ℕ → Db → Db
added_post channel_id m now db =
    add_event db.sequence none EventAction.ingested (has_media false) now (record db {
      posts = db.posts ++ (new_post db.sequence channel_id m now ∷ []);
      sequence = suc db.sequence;
    })

abbrev pub refs_of : Option MediaRef → List MediaRef
refs_of none = []
refs_of (some r) = r ∷ []

abbrev is_omitted : Option MediaRef → Bool
is_omitted none = false
is_omitted (some r) = r.omitted

-- The second transaction: what was downloaded.
unfoldable pub set_media : ℕ → Option MediaRef → ℕ → Db → Db
set_media i ref now db =
    add_event i none (if is_omitted ref then EventAction.media_omitted else EventAction.edited)
      (has_media_omitted (is_some ref) (is_omitted ref)) now
      (update_post i (λ p. record p { raw_media_refs = refs_of ref }) db)

record_media : ℕ → Option MediaRef → Exec (Option Post)
unfolding set_media
record_media i ref w = elim (get_post i w.db) [
  | none ↦ (ok none, w)
  | some p ↦
      (do
        commit (set_media i ref w.now)
        enqueue_normalize i
        pure (some (record p { raw_media_refs = refs_of ref })))
        w
]

unfoldable pub ingest_message : Env → Client → Message → SourceChannel → Exec (Option Post)
unfolding is_refused record_media
ingest_message e client m c w =
    if is_refused c.id m.id w.db
    then (ok none, w)
    else (do
      commit (added_post c.id m w.now)
      ref ← download_media e client m w.db.sequence c
      record_media w.db.sequence ref)
        w

abbrev pub orphan_age_minutes : ℕ
orphan_age_minutes = 5

abbrev pub orphan_batch : ℕ
orphan_batch = 200

-- The query's conditions.
unfoldable pub is_orphan : ℕ → Post → Bool
is_orphan now p =
    state_eq p.state PostState.pending
    && (is_empty p.raw_media_refs && leb (p.received_at + orphan_age_minutes * 60000) now)

unfoldable pub orphans : World → List Post
unfolding is_orphan
orphans w = take orphan_batch (sort_posts (λ p. p.received_at) (keep (is_orphan w.now) w.db.posts))

unfoldable pub reconcile_pending : Exec ℕ
unfolding orphans
reconcile_pending w = requeue_all enqueue_normalize (orphans w) 0 w

abbrev pub max_of : ℕ → ℕ → ℕ
max_of a b = if ltb a b then b else a

abbrev pub greatest_id : ℕ → List Post → ℕ
greatest_id channel_id [] = 0
greatest_id channel_id (p ∷ ps) =
    let rest = greatest_id channel_id ps in
    if p.source_channel_id == channel_id then max_of p.source_message_id rest else rest

-- The greatest message id of the channel's posts, or 0.
unfoldable pub last_ingested_message_id : SourceChannel → Db → ℕ
last_ingested_message_id c db = greatest_id c.id db.posts
