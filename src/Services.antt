-- ===== src/Services.antt =====
-- The four services on one database: their jobs, handlers and requests that write, one after another. Each runs
-- from its start to its end before the next: jobs that overlap stand in Bot/Publisher/Race.antt alone.
pub mod Edits
pub mod Kept
pub mod Keyed
pub mod Courses
pub mod Delivery
use telegram_cms.Prelude.{ℕ, ℤ, Text, Option, List, [], ◌∷◌}
use telegram_cms.Models.{Admin}
use telegram_cms.World.{Db, World, Result, ok, err}
use telegram_cms.Env.{Env}
use telegram_cms.Lifecycle.{Who, ingester, normalizer, editor, publisher, remover, bystander}
use telegram_cms.Userbot.Media.{Message, Client}
use telegram_cms.Userbot.Listening.{ChannelMap, Remote, start, on_new_message}
use telegram_cms.Worker.Normalize.{normalize}
use telegram_cms.Worker.Reconcile.{reconcile_scheduled, prune_dedupe}
use telegram_cms.Bot.Publisher.{publish}
use telegram_cms.Bot.Draft.{post_draft}
use telegram_cms.Bot.Callbacks.{CallbackQuery, cb_approve, cb_reject}
use telegram_cms.Api.Queue.{PostDecision, decide, edit_tags}
use telegram_cms.Api.SourceChannels.Requests.{Request, handle}
use telegram_cms.Api.SourceChannels.Turns.{requester}
use telegram_cms.Api.Tags.{TagCreate, TagUpdate, create_tag, update_tag, delete_tag}
use telegram_cms.Api.Templates.{
  TemplateCreate, TemplateUpdate, create_template, update_template, delete_template,
}
use telegram_cms.Api.Admins.{AdminCreate, AdminUpdate, create_admin, update_admin}
use telegram_cms.Api.Auth.{Crypto, login}
use telegram_cms.Api.Seeds.{seed_all}

-- The requests of the back-office that write neither posts' states nor channels, and the seeding.
pub data Edit : Type 0 where
  tag_creation : TagCreate → ℕ → Edit
  tag_change : ℕ → TagUpdate → Edit
  tag_deletion : ℕ → Edit
  template_creation : TemplateCreate → ℕ → Edit
  template_change : ℕ → TemplateUpdate → Edit
  template_deletion : ℕ → Edit
  admin_creation : AdminCreate → ℕ → Edit
  admin_change : ℕ → AdminUpdate → ℕ → Edit
  seeding : (Text → Text) → ℕ → Edit

unfoldable pub edit : Env → Edit → Db → Result Db
edit e (tag_creation payload now) db = create_tag e payload now db
edit e (tag_change i payload) db = update_tag i payload db
edit e (tag_deletion i) db = delete_tag i db
edit e (template_creation payload now) db = ok (create_template payload now db)
edit e (template_change i payload) db = update_template i payload db
edit e (template_deletion i) db = delete_template i db
edit e (admin_creation payload now) db = create_admin payload now db
edit e (admin_change i payload now) db = update_admin i payload now db
edit e (seeding hash_password now) db = ok (seed_all e hash_password now db)

-- What makes a service write.
pub data Event : Type 0 where
  -- userbot/
  started : Remote → Event
  arrived : ChannelMap → ℤ → Client → Client → Message → Event
  -- worker/
  normalizing : ℕ → Event
  booted pruning : Event
  -- bot/
  publishing drafting : ℕ → Event
  approve_pressed reject_pressed : CallbackQuery → Event
  -- api/
  decision : ℕ → PostDecision → Admin → Event
  tagging : ℕ → List ℕ → Admin → Event
  request : Request → Event
  editing : Edit → Event
  logging_in : Crypto → Text → Text → Event

-- Whose turns an event may take.
abbrev pub actor : Event → Who
actor (started _) = ingester
actor (arrived _ _ _ _ _) = ingester
actor (normalizing _) = normalizer
actor booted = bystander
actor pruning = bystander
actor (publishing _) = publisher
actor (drafting _) = bystander
actor (approve_pressed _) = editor
actor (reject_pressed _) = editor
actor (decision _ _ _) = editor
actor (tagging _ _ _) = bystander
actor (request r) = requester r
actor (editing _) = bystander
actor (logging_in _ _ _) = bystander

-- A request that fails is rolled back.
abbrev pub committed : Result Db → World → World
committed (ok db) w = record w { db = db }
committed (err x) w = w

unfoldable pub step : Env → Event → World → World
step e (started r) w = (start e r w).1
step e (arrived listened chat client again m) w =
    (on_new_message e listened chat client again m w).1
step e (normalizing i) w = (normalize e i w).1
step e booted w = (reconcile_scheduled w).1
step e pruning w = (prune_dedupe e w).1
step e (publishing i) w = (publish e i w).1
step e (drafting i) w = (post_draft e i w).1
step e (approve_pressed c) w = (cb_approve e c w).1
step e (reject_pressed c) w = (cb_reject e c w).1
step e (decision i d actor) w = (decide i d actor w).1
step e (tagging i tags actor) w = (edit_tags i tags actor w).1
step e (request r) w = committed (handle e r w.db) w
step e (editing x) w = committed (edit e x w.db) w
step e (logging_in k name password) w = (login k e name password w).1

unfoldable pub run : Env → List Event → World → World
run e [] w = w
run e (x ∷ xs) w = run e xs (step e x w)
