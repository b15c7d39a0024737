-- ===== src/Env.antt =====
-- What the services are given: the settings, and the functions of libraries that they call.
use telegram_cms.Prelude.{ℕ, Text, Bool, Option}
use telegram_cms.Models.{Settings}
use telegram_cms.World.{Exn}

-- `html_decoration.quote`, `strftime('%Y-%m-%d %H:%M UTC')`, `str` of an integer and of an exception, and
-- a time in seconds as `:.0f` writes it.
pub record Formats : Type 0 where
  pub quote : Text → Text
  pub utc_minute : ℕ → Text
  pub decimal : ℕ → Text
  pub show_exn : Exn → Text
  pub show_seconds : ℕ → Text

-- Python's tables of characters: `\s` and `str.strip`, `\w`, `str.lower`.
pub record Chars : Type 0 where
  pub is_space : ℕ → Bool
  pub is_word : ℕ → Bool
  pub lower : Text → Text

-- The language model's answer: its text, its name, its token counts and the time it took.
pub data Completion : Type 0 where
  no_package : Completion
  failed : Text → Completion
  answered : Option Text → Text → Option (ℕ × ℕ) → ℕ → Completion

-- `complete model system user max_tokens timeout` calls the model; `render body text label tags` is
-- Jinja's, and none where the template raises; `sha256` is the digest in hexadecimal.
-- `accepts_statement` says whether `Session.add` takes an INSERT statement, or raises.
pub record Env : Type 0 where
  pub settings : Settings
  pub open settings use *
  pub formats : Formats
  pub open formats use *
  pub chars : Chars
  pub open chars use *
  pub complete : Text → Text → Text → ℕ → ℕ → Completion
  pub render : Text → Text → Text → Text → Option Text
  pub sha256 : Text → Text
  pub accepts_statement : Bool
