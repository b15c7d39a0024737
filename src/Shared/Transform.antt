-- ===== src/Shared/Transform.antt =====
-- shared/transform.py: the prompts, and the call of the language model.
use telegram_cms.Prelude.{
  ℕ, Text, codes, Option, none, some, ◌++◌, is_empty, if◌then◌else◌, truthy, opt_or, or_else,
  text_or,
}
use telegram_cms.Enums.{AiMode, is_off}
use telegram_cms.World.{ai_transform, Result, ok, err}
use telegram_cms.Env.{Env, Completion, no_package, failed, answered}
use telegram_cms.Shared.Watermark.{strip}

pub record TransformResult : Type 0 where
  pub text : Text
  pub model : Text
  pub prompt_tokens : ℕ
  pub completion_tokens : ℕ
  pub latency_ms : ℕ

-- The keyword arguments of `transform_text`.
pub record Options : Type 0 where
  pub mode : AiMode
  pub target_language : Option Text
  pub tone_prompt : Option Text
  pub custom_system_prompt : Option Text
  pub model : Option Text
  pub max_tokens : Option ℕ
  pub timeout : Option ℕ

-- A prompt whose place for the language or the tone is filled.
abbrev translate_system : Text → Text
translate_system language =
    codes "You are a professional translator. Translate the following message into "
    ++ (language
        ++ codes
            ". Preserve the original formatting, line breaks, and any markdown/HTML tags. Do NOT add any commentary or explanation — return only the translated text.")

abbrev summarize_system : Text
summarize_system =
    codes
      "You are a professional editor. Summarize the following message into concise bullet points. Keep the key facts, strip opinion and filler. Use the same language as the original unless instructed otherwise. Return only the bullet-point summary, no preamble."

abbrev retone_system : Text → Text
retone_system tone =
    codes
      "You are a professional copywriter. Rewrite the following message to match this tone/style: "
    ++ (tone
        ++ codes
            ". Preserve all factual information but adjust the language, formality, and voice accordingly. Return only the rewritten text.")

unfoldable pub build_system_prompt : Options → AiMode → Text
build_system_prompt o AiMode.off = codes ""
build_system_prompt o AiMode.translate =
    translate_system (opt_or o.target_language (codes "Persian"))
build_system_prompt o AiMode.summarize = summarize_system
build_system_prompt o AiMode.retone =
    retone_system (opt_or o.tone_prompt (codes "professional and concise"))
build_system_prompt o AiMode.custom =
    opt_or o.custom_system_prompt (codes "You are a helpful assistant. Process the text below.")

abbrev prompt_count : Option (ℕ × ℕ) → ℕ
prompt_count none = 0
prompt_count (some (p, c)) = p

abbrev completion_count : Option (ℕ × ℕ) → ℕ
completion_count none = 0
completion_count (some (p, c)) = c

-- What becomes of the model's answer; an empty one is an error.
read_completion : Env → Text → Completion → Result TransformResult
read_completion e model no_package = err (
    ai_transform (
      codes
        "The 'openai' package is required for AI transformations. Install it with: pip install openai>=1.30.0"))
read_completion e model (failed reason) =
    err (ai_transform (codes "LLM API call failed: " ++ reason))
read_completion e model (answered content name usage latency) =
    if truthy content
    then ok (record {
      text = strip e.chars (opt_or content (codes ""));
      model = text_or name model;
      prompt_tokens = prompt_count usage;
      completion_tokens = completion_count usage;
      latency_ms = latency;
    })
    else err (ai_transform (codes "LLM returned an empty response"))

call_model : Env → Text → Options → Result TransformResult
unfolding read_completion build_system_prompt
call_model e raw o =
    let model = opt_or o.model e.ai_model in
    if is_empty e.ai_api_key
    then err (ai_transform (codes "AI_API_KEY is not configured"))
    else read_completion e model (
        e.complete model (build_system_prompt o o.mode) raw (or_else o.max_tokens e.ai_max_tokens)
          (or_else o.timeout e.ai_timeout_seconds))

unfoldable pub transform_text : Env → Text → Options → Result TransformResult
unfolding call_model
transform_text e raw o =
    if is_off o.mode
    then ok (record {
      text = raw;
      model = codes "none";
      prompt_tokens = 0;
      completion_tokens = 0;
      latency_ms = 0;
    })
    else call_model e raw o
