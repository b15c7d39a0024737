-- ===== src/Userbot/Listening.antt =====
-- userbot/main.py: the start with its backfill, the handler of a new message, and the reload of the
-- channels. What the client yields and resolves is a parameter.
pub mod Backfill
pub mod Flooded
pub mod Reload
pub mod Turns
use telegram_cms.Prelude.{
  ℕ, ◌+◌, ◌*◌, ℤ, int_eq, Bool, not, ◌&&◌, Option, none, some, List, [], ◌∷◌, ◌++◌, any, keep,
  if◌then◌else◌,
}
use telegram_cms.Models.{SourceChannel}
use telegram_cms.World.{
  Db, World, Exn, flood_wait, ok, Exec, ◌>>=◌, ◌>>◌, pure, get_db, try_except, sleep,
}
use telegram_cms.Env.{Env}
use telegram_cms.Userbot.Media.{Message, Client}
use telegram_cms.Userbot.Ingest.{ingest_message, last_ingested_message_id, reconcile_pending}

-- `channel_map`: the channels that are listened to, by their Telegram ids.
abbrev pub ChannelMap : Type 0
ChannelMap = List (ℤ × SourceChannel)

abbrev pub find_chat : ℤ → ChannelMap → Option SourceChannel
find_chat k [] = none
find_chat k ((j, c) ∷ rest) = if int_eq j k then some c else find_chat k rest

abbrev pub has_chat : ℤ → ChannelMap → Bool
has_chat k = any (λ (r : ℤ × SourceChannel). int_eq r.0 k)

unfoldable pub load_channels : Db → List SourceChannel
load_channels db = keep (λ (c : SourceChannel). c.ingestion_enabled) db.channels

-- What the backfill does with an exception: the message is left, and the next one is taken.
pub skip_message : Exn → Exec (Unit {0})
skip_message (flood_wait seconds) = sleep ((seconds + 1) * 1000)
skip_message x = pure tt

pub try_ingest : Env → SourceChannel → Client → Message → (Exn → Exec (Unit {0})) → Exec (Unit {0})
try_ingest e c client m handler = try_except (do ingest_message e client m c; pure tt) handler

-- The messages that the client yields before it ends or raises, each with what its downloads do.
unfoldable pub backfill_all : Env → SourceChannel → List (Message × Client) → Exec (Unit {0})
unfolding try_ingest skip_message
backfill_all e c [] = pure tt
backfill_all e c ((m, client) ∷ rest) = do
  try_ingest e c client m skip_message
  backfill_all e c rest

-- `messages min_id` is `iter_messages` with that bound.
unfoldable pub backfill : Env → SourceChannel → (ℕ → List (Message × Client)) → Exec (Unit {0})
unfolding backfill_all
backfill e c messages = do db ← get_db; backfill_all e c (messages (last_ingested_message_id c db))

-- What the client knows of a channel: whether its entity resolves, and its messages.
pub record Remote : Type 0 where
  pub resolves : SourceChannel → Bool
  pub messages : SourceChannel → ℕ → List (Message × Client)

listen_all : Env → Remote → List SourceChannel → ChannelMap → Exec ChannelMap
listen_all e r [] listened = pure listened
listen_all e r (c ∷ rest) listened =
    if r.resolves c
    then (do
      backfill e c (r.messages c)
      listen_all e r rest (listened ++ ((c.telegram_channel_id, c) ∷ [])))
    else listen_all e r rest listened

-- The start, up to the handlers: the orphans, then each channel with its backfill.
unfoldable pub start : Env → Remote → Exec ChannelMap
unfolding listen_all
start e r = do
  try_except (do reconcile_pending; pure tt) (λ x. pure tt)
  db ← get_db
  listen_all e r (load_channels db) []

-- The retry after a flood wait; `client` is what its own downloads would do.
pub retry_message : Env → SourceChannel → Client → Message → Exn → Exec (Unit {0})
unfolding try_ingest
retry_message e c client m (flood_wait seconds) = do
  sleep ((seconds + 1) * 1000)
  try_ingest e c client m (λ x. pure tt)
retry_message e c client m x = pure tt

unfoldable pub on_new_message : Env → ChannelMap → ℤ → Client → Client → Message → Exec (Unit {0})
unfolding try_ingest retry_message
on_new_message e listened chat client again m = elim (find_chat chat listened) [
  | none ↦ pure tt
  | some c ↦ try_ingest e c client m (retry_message e c again m)
]

abbrev pub has_channel : ℤ → List SourceChannel → Bool
has_channel k = any (λ (c : SourceChannel). int_eq c.telegram_channel_id k)

-- New channels whose entity resolves; `current` are the ids of before.
pub add_channels : (SourceChannel → Bool) → ChannelMap → List SourceChannel → ChannelMap
add_channels resolves current [] = []
add_channels resolves current (c ∷ cs) =
    let rest = add_channels resolves current cs in
    if not (has_chat c.telegram_channel_id current) && resolves c
    then (c.telegram_channel_id, c) ∷ rest
    else rest

-- One turn of the reloader.
unfoldable pub reload : (SourceChannel → Bool) → List SourceChannel → ChannelMap → ChannelMap
unfolding add_channels
reload resolves channels current =
    keep (λ (r : ℤ × SourceChannel). has_channel r.0 channels) current
    ++ add_channels resolves current channels
