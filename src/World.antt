-- ===== src/World.antt =====
-- What the services share: the database, the ARQ queues of shared/tasks.py, Telegram, the media
-- directory and the clock; and the monad of the code that reads and writes them.
-- A transaction's writes are made at its commit: code reads rows into values, and what it raises
-- before the commit leaves the database as it was. What is committed stays where a later step raises.
pub mod Frames
pub mod Keeps
pub mod Keyed
pub mod Triples
use telegram_cms.Prelude.{
  ℕ, ◌+◌, ℤ, Text, text_eq, Bool, true, false, Option, none, List, [], ◌∷◌, ◌++◌, ◌==◌, find,
  modify, any, String,
}
use telegram_cms.Enums.{MediaType, EventAction}
use telegram_cms.Models.{
  Admin, Tag, Template, SourceChannel, SourceChannelTag, Post, PostEvent, Payload, PublishedDedupe,
}

-- `sequence` stands for the tables' sequences: an id taken from it is new.
pub record Db : Type 0 where
  pub admins : List Admin
  pub tags : List Tag
  pub templates : List Template
  pub channels : List SourceChannel
  pub channel_tags : List SourceChannelTag
  pub posts : List Post
  pub events : List PostEvent
  pub dedupe : List PublishedDedupe
  pub sequence : ℕ

pub data Exn : Type 0 where
  http : ℕ → String → Exn
  integrity_error dbapi_error value_error unmapped_instance template_error connection_error
        redis_error network_error :
      Exn
  no_message_id : ℕ → Exn
  telegram_api : Text → Exn
  retry_after : ℕ → Exn
  flood_wait : ℕ → Exn
  ai_transform : Text → Exn

pub data Result {ℓ} (A : Type ℓ) : Type ℓ where
  ok : A → Result A
  err : Exn → Result A

-- The job names, with the arguments of the consumer; the two queues.
pub data JobCall : Type 0 where
  normalize publish post_draft : ℕ → JobCall
  prune_dedupe : JobCall
  alert : Text → JobCall

pub data Queue : Type 0 where
  worker bot : Queue

pub record Job : Type 0 where
  pub call : JobCall
  pub queue : Queue
  pub defer_by : Option ℕ

-- Redis answers, or a call raises: an `OSError`, or an error of the client library.
pub data Redis : Type 0 where
  up os_down client_down : Redis

pub data Keyboard : Type 0 where
  draft : ℕ → Text → Keyboard
  published_button : Keyboard
  no_buttons : Keyboard

-- The calls of the Bot API.
pub data Call : Type 0 where
  send_message : ℤ → Text → Call
  send_card : ℤ → Text → Keyboard → Call
  send_media : ℤ → MediaType → Text → Option Text → Call
  send_media_group : ℤ → List (MediaType × Text) → Call
  edit_message_text : ℤ → ℕ → Text → Keyboard → Call
  answer_callback : String → Bool → Call

-- What Telegram answers: the message's id, or an exception in the caller.
pub data Reply : Type 0 where
  delivered : ℕ → Reply
  refused : Exn → Reply

pub record MediaFile : Type 0 where
  pub path : Text
  pub name : Text
  pub mtime : ℕ
  pub is_file : Bool
  pub removable : Bool

-- `replies` are Telegram's answers to the calls to come; without one the connection is lost.
-- `sent` are the calls that were delivered, oldest first.
pub record World : Type 0 where
  pub db : Db
  pub redis : Redis
  pub pool : Bool
  pub jobs : List Job
  pub now : ℕ
  pub replies : List Reply
  pub sent : List Call
  pub files : List MediaFile

abbrev pub Exec : Type 0 → Type 0
Exec A = World → Result A × World

abbrev pub continue : {A B : Type 0} → Result A → (A → Exec B) → World → Result B × World
continue (ok a) f w = f a w
continue (err e) f w = (err e, w)

infixl 5 ◌>>=◌ ◌>>◌
abbrev pub ◌>>=◌ : {A B : Type 0} → Exec A → (A → Exec B) → Exec B
◌>>=◌ m f w = let (r, w') = m w in continue r f w'

abbrev pub ◌>>◌ : {A B : Type 0} → Exec A → Exec B → Exec B
m >> k = m >>= λ _. k

abbrev pub pure : {A : Type 0} → A → Exec A
pure a w = (ok a, w)

abbrev pub raise : {A : Type 0} → Exn → Exec A
raise e w = (err e, w)

abbrev pub get_db : Exec Db
get_db w = (ok w.db, w)

abbrev pub get_now : Exec ℕ
get_now w = (ok w.now, w)

-- `await session.commit()`: the transaction's writes are made.
abbrev pub commit : (Db → Db) → Exec (Unit {0})
commit f w = (ok tt, record w { db = f w.db })

-- A handler's `try: m except Exception as exc: handler(exc)`.
abbrev pub caught : {A : Type 0} → Result A → (Exn → Exec A) → World → Result A × World
caught (ok a) h w = (ok a, w)
caught (err e) h w = h e w

abbrev pub try_except : {A : Type 0} → Exec A → (Exn → Exec A) → Exec A
try_except m h w = let (r, w') = m w in caught r h w'

abbrev pub sleep : ℕ → Exec (Unit {0})
sleep t w = (ok tt, record w { now = w.now + t })

-- A call of the Bot API: it takes the next answer.
abbrev pub answer : List Reply → Call → Exec ℕ
answer [] c w = (err network_error, w)
answer (delivered m ∷ rest) c w = (ok m, record w { replies = rest; sent = w.sent ++ (c ∷ []) })
answer (refused e ∷ rest) c w = (err e, record w { replies = rest })

unfoldable pub bot_call : Call → Exec ℕ
bot_call c w = answer w.replies c w

-- `except TelegramAPIError`, which `TelegramRetryAfter` and `TelegramNetworkError` are.
abbrev pub is_telegram_error : Exn → Bool
is_telegram_error (telegram_api _) = true
is_telegram_error (retry_after _) = true
is_telegram_error network_error = true
is_telegram_error _ = false

-- `enqueue_job`: a lost connection drops the shared pool before it is raised again.
abbrev pub push : Redis → Job → Exec (Unit {0})
push up j w = (ok tt, record w { pool = true; jobs = w.jobs ++ (j ∷ []) })
push os_down j w = (err connection_error, record w { pool = false })
push client_down j w = (err redis_error, w)

unfoldable pub enqueue_job : JobCall → Queue → Option ℕ → Exec (Unit {0})
enqueue_job call queue delay w =
    push w.redis (record { call = call; queue = queue; defer_by = delay }) w

abbrev pub enqueue_normalize : ℕ → Exec (Unit {0})
enqueue_normalize post_id = enqueue_job (normalize post_id) worker none

abbrev pub enqueue_publish : ℕ → Option ℕ → Exec (Unit {0})
enqueue_publish post_id delay = enqueue_job (publish post_id) bot delay

abbrev pub enqueue_post_draft : ℕ → Exec (Unit {0})
enqueue_post_draft post_id = enqueue_job (post_draft post_id) bot none

abbrev pub enqueue_prune_dedupe : Exec (Unit {0})
enqueue_prune_dedupe = enqueue_job prune_dedupe worker none

abbrev pub enqueue_alert : Text → Exec (Unit {0})
enqueue_alert text = enqueue_job (alert text) bot none

-- `session.get(Post, id)`
abbrev pub get_post : ℕ → Db → Option Post
get_post i db = find (λ (p : Post). p.id == i) db.posts

abbrev pub get_channel : ℕ → Db → Option SourceChannel
get_channel i db = find (λ (c : SourceChannel). c.id == i) db.channels

abbrev pub get_admin : ℕ → Db → Option Admin
get_admin i db = find (λ (a : Admin). a.id == i) db.admins

abbrev pub get_tag : ℕ → Db → Option Tag
get_tag i db = find (λ (t : Tag). t.id == i) db.tags

abbrev pub get_template : ℕ → Db → Option Template
get_template i db = find (λ (t : Template). t.id == i) db.templates

-- The flush of a changed row: the assigned columns are written.
abbrev pub update_post : ℕ → (Post → Post) → Db → Db
update_post i f db = record db { posts = modify (λ (p : Post). p.id == i) f db.posts }

-- `session.add(PostEvent(…))`
abbrev pub add_event : ℕ → Option ℕ → EventAction → Payload → ℕ → Db → Db
add_event post actor action payload now db = record db {
  events =
      db.events
      ++ (record {
        post_id = post;
        actor_admin_id = actor;
        action = action;
        payload = payload;
        created_at = now;
      }
          ∷ []);
}

-- `Path(p).exists()`
abbrev pub file_exists : Text → World → Bool
file_exists p w = any (λ (f : MediaFile). text_eq f.path p) w.files
