-- ===== src/Lib.antt =====
-- Models of the Python services of the Telegram CMS, and what holds of them.
--
-- The userbot (userbot/) reads source channels and inserts posts; the worker (worker/) normalizes a post
-- and routes it; the bot (bot/) publishes it, with draft cards for the editors; the back-office (api/)
-- writes decisions on posts and keeps the administrators. They share Postgres, the ARQ queues in Redis and
-- shared/.
--
-- Enums is shared/enums.py and Models is shared/models.py with the settings of shared/config.py.
-- World holds what the services share: the tables as lists of rows, the queues of shared/tasks.py,
-- Telegram, the media directory and the clock; and the monad of code that reads and writes them, in which
-- what was committed stays where a later step raises. World.Frames has the rules for what an action leaves
-- alone, and World.Keeps those for what it keeps true; World.Keyed is about the keys of the posts. Env
-- holds the settings and the functions of libraries: Jinja's rendering, the language model, SHA-256, the
-- classes of characters, and whether SQLAlchemy's `Session.add` takes a statement.
-- Shared.Health is the answer of shared/health.py; Shared.Transform and Shared.Watermark are
-- shared/transform.py, Shared.Fingerprint is shared/dedupe.py, and Shared.Origins is the list of CORS origins
-- of shared/config.py with what api/main.py derives from it.
-- Bot.Cards is bot/cards.py; Bot.Send is `_send_post`, and Bot.Publisher the rest, of bot/publisher.py, a
-- function for each transaction; Bot.Publisher.Race interleaves any number of its jobs.
-- Bot.Callbacks is bot/handlers/callbacks.py, Bot.Commands is bot/handlers/admin.py, and Bot.Draft is
-- bot/draft.py with bot/alerts.py.
-- Userbot.Media and Userbot.Ingest are userbot/ingest.py; of userbot/main.py, Userbot.Listening is the
-- start with its backfill, the handler of a new message and the reload of the channels, and
-- Userbot.Watchdog is the watchdog and the userbot's health check.
-- Worker.Normalize is worker/normalize.py with shared/normalize.py, Worker.Reconcile is
-- worker/reconcile.py.
-- Api.SourceChannels is api/routers/source_channels.py and ai_settings.py, with the requests of
-- Api.Schemas from api/schemas.py; Api.Tags and Api.Templates are the changes of api/routers/tags.py and
-- templates.py, Api.Seeds is the seeding of api/cli.py, Api.Queue is api/routers/queue.py, Api.Pages the
-- query of a listing with pages, there and in Api.Audit, which is api/routers/audit.py; Api.Metrics is
-- api/metrics.py, Api.Admins is api/routers/admins.py, and Api.Auth is shared/security.py, api/deps.py and
-- api/auth.py.
-- Services puts the jobs, handlers and requests that write together, each from its start to its end as one step
-- on one world, so that jobs run one after another (max_concurrent_publishes is 1 where it is not set); and
-- Services.Delivery runs a publish job after what queued it. Lifecycle is the abstract machine of one post,
-- its state and the message it was published as; Lifecycle.Laws are the writes to the table of posts that the
-- machine knows, by who makes them, and the Turns modules read each service as a sequence of them, with the rules of
-- World.Triples for an action that returns or raises.
-- Tests has concrete inputs, and the theorems at them.
--
-- Text is the list of its code points, times are milliseconds, and ids are naturals but for Telegram's,
-- which may be negative. One sequence stands for those of the tables. Telegram's answers are a list that
-- the calls take in turn; a call that is refused has delivered nothing. A dictionary of a media item has
-- the keys that the ingestion writes. The search for a free path of a file takes one round more than the
-- directory has files: each round but the last finds another file. A handler or job is a sequence of
-- transactions that nothing comes between, but in Bot.Publisher.Race, where the check, the reservation,
-- the send and the release of any number of jobs interleave. The database's sort by a column is a parameter
-- of a listing, as it may leave the rows of one time in any order, and so is which rows pydantic writes as
-- JSON. Not modelled are failures of the database, the lock and the order of ARQ's own retries, the listings without pages, logging, the
-- start of the processes, the migrations, and the parts in Go, TypeScript and shell. The manifest names
-- the parts that are left out, and why.
pub mod Prelude
pub mod Enums
pub mod Models
pub mod World
pub mod Env
pub mod Shared
pub mod Bot
pub mod Worker
pub mod Api
pub mod Userbot
pub mod Lifecycle
pub mod Services
mod Tests
