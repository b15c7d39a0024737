-- ===== src/Tests/Samples.antt =====
-- A small installation: one administrator, one channel, one post, and Telegram's answers.
use telegram_cms.Prelude.{
  ◌==◌, ◌||◌, ◌&&◌, leb, pos, negsuc, codes, true, false, none, some, [], ◌∷◌,
}
use telegram_cms.Enums.{Role, Policy, PostState, AiMode}
use telegram_cms.Models.{Admin, Tag, SourceChannel, Post, Settings}
use telegram_cms.World.{Db, World, Redis, Reply}
use telegram_cms.Env.{Env, Formats, Chars, answered}

abbrev pub settings : Settings
settings = record {
  dedupe_lookback_days = 7;
  audit_retention_days = 90;
  media_retention_days = 30;
  publish_spacing = 2000;
  media_max_size_default = 50;
  destination_channel_id = negsuc 99;
  editor_group_id = negsuc 7;
  media_dir = codes "/media";
  app_domain = codes "cms.example";
  cors_origins = codes "*";
  access_token_ttl_minutes = 30;
  refresh_token_ttl_days = 14;
  seed_admin_username = codes "admin";
  seed_admin_password = codes "secret";
  ai_enabled = true;
  ai_api_key = codes "key";
  ai_model = codes "m";
  ai_max_tokens = 2048;
  ai_timeout_seconds = 30;
}

abbrev pub formats : Formats
formats = record {
  quote = λ t. t;
  utc_minute = λ t. [];
  decimal = λ n. n ∷ [];
  show_exn = λ x. codes "error";
  show_seconds = λ t. [];
}

-- A space and a line feed are white, and letters are word characters.
abbrev pub chars : Chars
chars = record {
  is_space = λ c. (c == 32) || (c == 10);
  is_word = λ c. leb b'a' c && leb c b'z';
  lower = λ t. t;
}

-- The session takes no statement.
abbrev pub env : Env
env = record {
  settings = settings;
  formats = formats;
  chars = chars;
  complete = λ model system user max_tokens timeout. answered (some (codes "short")) model none 5;
  render = λ body text label tags. some text;
  sha256 = λ t. t;
  accepts_statement = false;
}

-- The session takes one.
abbrev pub lenient : Env
lenient = record env { accepts_statement = true }

abbrev pub boss : Admin
boss = record {
  id = 1;
  username = codes "boss";
  password_hash = codes "h";
  role = Role.super_admin;
  tg_user_id = some (pos 42);
  created_at = 0;
  disabled_at = none;
}

abbrev pub news : Tag
news = record { id = 1; slug = codes "news"; label = codes "News"; color = none; created_at = 0 }

abbrev pub channel : SourceChannel
channel = record {
  id = 1;
  telegram_channel_id = negsuc 1000;
  title = codes "Source";
  username = none;
  ingestion_enabled = true;
  policy = Policy.queue;
  default_tag_ids = 1 ∷ [];
  normalization_template_id = none;
  max_media_size_bytes = 40;
  source_label = none;
  ai_enabled = true;
  ai_mode = AiMode.summarize;
  ai_target_language = none;
  ai_tone_prompt = none;
  ai_custom_system_prompt = none;
  watermark_enabled = true;
  watermark_text = some (codes "w");
  strip_source_tags = false;
  created_at = 0;
}

abbrev pub post : Post
post = record {
  id = 5;
  source_channel_id = 1;
  source_message_id = 10;
  raw_text = some (codes "raw");
  raw_media_refs = [];
  received_at = 100;
  state = PostState.approved;
  normalized_text = some (codes "text");
  ai_transformed_text = none;
  media_paths = [];
  tag_ids = [];
  scheduled_for = none;
  published_message_id = none;
  published_at = none;
  dedupe_hash = some (codes "h");
  draft_message_id = none;
}

abbrev pub db : Db
db = record {
  admins = boss ∷ [];
  tags = news ∷ [];
  templates = [];
  channels = channel ∷ [];
  channel_tags = [];
  posts = post ∷ [];
  events = [];
  dedupe = [];
  sequence = 6;
}

abbrev pub world : World
world = record {
  db = db;
  redis = Redis.up;
  pool = false;
  jobs = [];
  now = 1000000;
  replies = Reply.delivered 77 ∷ [];
  sent = [];
  files = [];
}
