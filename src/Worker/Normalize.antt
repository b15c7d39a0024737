-- ===== src/Worker/Normalize.antt =====
-- worker/normalize.py: the `normalize` job, with the rendering of shared/normalize.py.
pub mod Routes
pub mod Normalized
pub mod Turns
use telegram_cms.Prelude.{
  ℕ, ◌+◌, Text, codes, Bool, true, false, not, ◌&&◌, ◌||◌, Option, none, some, List, [], ◌∷◌, ◌++◌,
  map, ◌==◌, leb, is_empty, if◌then◌else◌, opt_or, keep, any, elem, take, text_eq,
}
use telegram_cms.Enums.{Policy, PostState, EventAction, is_auto, is_off, state_in}
use telegram_cms.Models.{
  Post, SourceChannel, Tag, Template, MediaRef, Payload, PublishedDedupe, ai_result, error,
  dedupe_hash, normalized, days,
}
use telegram_cms.World.{
  Db, World, Exn, template_error, Result, ok, err, Exec, ◌>>=◌, ◌>>◌, pure, raise, get_db, commit,
  get_post, get_channel, get_template, update_post, add_event, enqueue_publish, enqueue_post_draft,
}
use telegram_cms.Env.{Env}
use telegram_cms.Bot.Cards.{label_of}
use telegram_cms.Shared.Watermark.{strip, apply_watermark}
use telegram_cms.Shared.Transform.{TransformResult, Options, transform_text}
use telegram_cms.Shared.Fingerprint.{compute_dedupe_hash}

pub data Outcome : Type 0 where
  not_found no_channel duplicate enqueued_publish enqueued_draft : Outcome
  skip : PostState → Outcome

abbrev pub default_template_body : Text
default_template_body =
    codes "{% if tags %}{{ tags }}\n{% endif %}{{ text }}\n\n— {{ source_label }}"

abbrev underscored : Text → Text
underscored [] = []
underscored (x ∷ xs) = (if x == 32 then b'_' else x) ∷ underscored xs

abbrev hash_words : List Text → Text
hash_words [] = []
hash_words (t ∷ []) = t
hash_words (t ∷ u ∷ rest) = t ++ (32 ∷ hash_words (u ∷ rest))

-- ['News', 'Tech'] to '#news #tech'; empty labels are left out.
unfoldable pub format_tag_string : Env → List Text → Text
format_tag_string e labels = hash_words (
    map (λ label. b'#' ∷ underscored (e.lower label)) (keep (λ label. not (is_empty label)) labels))

unfoldable pub resolve_tag_labels : List ℕ → Db → List Text
resolve_tag_labels tag_ids db =
    map (λ (t : Tag). t.label) (keep (λ (t : Tag). elem t.id tag_ids) db.tags)

-- The template's rendering, stripped; none where the template raises.
unfoldable pub render_template : Env → Text → Text → Text → Text → Option Text
render_template e body text label tags = elim (e.render body text label tags) [
  | none ↦ none
  | some t ↦ some (strip e.chars t)
]

unfoldable pub normalize_text : Env → Db → Text → Text → Text → List ℕ → Option Text
unfolding render_template resolve_tag_labels format_tag_string
normalize_text e db body text label tag_ids =
    render_template e body text label (format_tag_string e (resolve_tag_labels tag_ids db))

-- The hash was published within the lookback window.
unfoldable pub is_duplicate : Env → Text → ℕ → Db → Bool
is_duplicate e h now db =
    any
      (λ (d : PublishedDedupe).
        text_eq d.hash h && leb now (d.published_at + days e.dedupe_lookback_days))
      db.dedupe

unfoldable pub decide_route : Policy → Bool → Outcome
decide_route policy true = duplicate
decide_route policy false = if is_auto policy then enqueued_publish else enqueued_draft

unfoldable pub should_ai_transform : Env → SourceChannel → Bool
should_ai_transform e c = e.ai_enabled && (c.ai_enabled && not (is_off c.ai_mode))

abbrev template_of : Option Template → Text
template_of none = default_template_body
template_of (some t) = t.body

-- An id of 0 is false.
unfoldable pub template_body : SourceChannel → Db → Text
template_body c db = elim c.normalization_template_id [
  | none ↦ default_template_body
  | some i ↦ if i == 0 then default_template_body else template_of (get_template i db)
]

abbrev pub tags_for : SourceChannel → List ℕ
tags_for c = if is_auto c.policy then c.default_tag_ids else []

abbrev pub options_of : Env → SourceChannel → Options
options_of e c = record {
  mode = c.ai_mode;
  target_language = c.ai_target_language;
  tone_prompt = c.ai_tone_prompt;
  custom_system_prompt = c.ai_custom_system_prompt;
  model = some e.ai_model;
  max_tokens = some e.ai_max_tokens;
  timeout = some e.ai_timeout_seconds;
}

-- What the transformation step leaves: the text that goes on, the column `ai_transformed_text`, and the
-- event to log.
pub record Transformed : Type 0 where
  pub text : Text
  pub column : Option Text
  pub event : Option (EventAction × Payload)

abbrev after_transform : Env → SourceChannel → Post → Text → Result TransformResult → Transformed
after_transform e c p text (ok r) = record {
  text = r.text;
  column = some r.text;
  event = some (
    EventAction.ai_transformed,
    ai_result r.model c.ai_mode r.prompt_tokens r.completion_tokens r.latency_ms,
  );
}
after_transform e c p text (err x) = record {
  text = text;
  column = p.ai_transformed_text;
  event = some (EventAction.ai_failed, error (take 500 (e.show_exn x)));
}

unfoldable pub ai_step : Env → SourceChannel → Post → Text → Transformed
ai_step e c p text =
    if should_ai_transform e c
    then after_transform e c p text (transform_text e text (options_of e c))
    else record { text = text; column = p.ai_transformed_text; event = none }

abbrev add_ai_event : ℕ → Option (EventAction × Payload) → ℕ → Db → Db
add_ai_event i none now db = db
add_ai_event i (some (action, payload)) now db = add_event i none action payload now db

abbrev pub final_text : Env → SourceChannel → Text → Text
final_text e c text =
    apply_watermark e.chars text (if c.watermark_enabled then c.watermark_text else none)
      c.strip_source_tags

abbrev pub media_paths_of : List MediaRef → List Text
media_paths_of refs =
    map (λ (m : MediaRef). m.file)
      (keep (λ (m : MediaRef). not (is_empty m.file) && not m.omitted) refs)

-- The columns that the job assigns, but for the state.
abbrev pub normalized_post : Env → SourceChannel → Transformed → Text → Post → Post
normalized_post e c t h p = record p {
  ai_transformed_text = t.column;
  normalized_text = some (final_text e c t.text);
  tag_ids = tags_for c;
  dedupe_hash = some h;
  media_paths = media_paths_of p.raw_media_refs;
}

-- `q` is the row that was read; the columns are computed from it.
write_normalized :
    Env
    → ℕ
    → Post
    → SourceChannel
    → Transformed
    → Text
    → PostState
    → EventAction
    → Payload
    → ℕ
    → Db
    → Db
write_normalized e i p c t h s action payload now db = add_event i none action payload now (
    add_ai_event i t.event now
      (update_post i (λ q. record (normalized_post e c t h q) { state = s }) db))

enqueue_for : ℕ → Outcome → Exec Outcome
enqueue_for i enqueued_publish = do enqueue_publish i none; pure enqueued_publish
enqueue_for i other = do enqueue_post_draft i; pure enqueued_draft

finish : Env → ℕ → Post → SourceChannel → Text → Exec Outcome
unfolding write_normalized enqueue_for
finish e i p c text w =
    let t = ai_step e c p text in
    let h = compute_dedupe_hash e p.raw_text p.raw_media_refs in
    if is_duplicate e h w.now w.db
    then (do
      commit (
          write_normalized e i p c t h PostState.rejected EventAction.duplicate (dedupe_hash h)
            w.now)
      pure duplicate)
        w
    else (do
      commit (write_normalized e i p c t h p.state EventAction.edited normalized w.now)
      enqueue_for i (decide_route c.policy false))
        w

-- A template that raises ends the job before anything is written.
render_and_finish : Env → ℕ → Post → SourceChannel → Exec Outcome
unfolding finish
render_and_finish e i p c w =
    elim (normalize_text e w.db (template_body c w.db) (opt_or p.raw_text []) (label_of c)
      (tags_for c)) [ none ↦ (err template_error, w) | some text ↦ finish e i p c text w ]

with_channel : Env → ℕ → Post → Option SourceChannel → Exec Outcome
unfolding render_and_finish
with_channel e i p none w = (ok no_channel, w)
with_channel e i p (some c) w = render_and_finish e i p c w

unfoldable pub normalize : Env → ℕ → Exec Outcome
unfolding with_channel
normalize e i w = elim (get_post i w.db) [
  | none ↦ (ok not_found, w)
  | some p ↦
      if state_in p.state (PostState.published ∷ PostState.rejected ∷ [])
      then (ok (skip p.state), w)
      else with_channel e i p (get_channel p.source_channel_id w.db) w
]
