-- ===== src/Worker/Normalize/Normalized.antt =====
-- worker/normalize.py: what a post is, and what is queued for it, after its job.
use telegram_cms.Prelude.{
  ℕ, Text, Bool, true, false, not, ◌&&◌, Option, none, some, List, [], ◌∷◌, ◌++◌, arith, ◌≡◌, ◌≢◌,
  refl, ◌⊎◌, inl, inr, opt_or, subst, ap, sym, ◌∙◌, append-nil, if◌then◌else◌,
}
use telegram_cms.Enums.{Policy, PostState, AiMode, state_in, is_off, is_auto}
use telegram_cms.Models.{Post, SourceChannel, MediaRef}
use telegram_cms.World.{
  World, Result, ok, err, Exn, up, JobCall, publish, post_draft, bot, get_post, get_channel,
}
use telegram_cms.Env.{Env}
use telegram_cms.Bot.Cards.{label_of}
use telegram_cms.Shared.Transform.{TransformResult, transform_text}
use telegram_cms.Shared.Fingerprint.{compute_dedupe_hash}
use telegram_cms.Shared.Watermark.{apply_watermark}
use telegram_cms.Worker.Normalize.{
  normalize, normalize_text, template_body, tags_for, is_duplicate, ai_step, normalized_post,
  should_ai_transform, options_of, media_paths_of, after_transform,
}
use telegram_cms.Worker.Normalize.Routes.{hash_of, next_job, normalize-duplicate, normalize-routes}

-- The files of a post's media: of each item that has one and was not left out for its size, in their order.
pub data Files : List MediaRef → List Text → Type 0 where
  done : Files [] []
  kept :
      {m : MediaRef} {ms : List MediaRef} {fs : List Text}
      → m.omitted ≡ false
      → m.file ≢ []
      → Files ms fs
      → Files (m ∷ ms) (m.file ∷ fs)
  left :
      {m : MediaRef} {ms : List MediaRef} {fs : List Text}
      → (m.omitted ≡ true) ⊎ (m.file ≡ [])
      → Files ms fs
      → Files (m ∷ ms) fs

media_paths_of-Files : (ms : List MediaRef) → Files ms (media_paths_of ms)
media_paths_of-Files [] = done
media_paths_of-Files (m ∷ ms) = go (media_paths_of-Files ms) m.file refl m.omitted refl
  where
    go :
        Files ms (media_paths_of ms)
        → (f : Text) → m.file ≡ f
        → (b : Bool) → m.omitted ≡ b
        → Files (m ∷ ms) (media_paths_of (m ∷ ms))
    go rest [] no_file b o =
        subst (Files (m ∷ ms)) (ground (arith, no_file)) (left (inr no_file) rest)
    go rest (x ∷ f) file true o =
        subst (Files (m ∷ ms)) (ground (arith, file, o)) (left (inl o) rest)
    go rest (x ∷ f) file false o =
        subst (Files (m ∷ ms)) (ground (arith, file, o))
          (kept o (λ no_file. absurd (ground (arith, file, no_file))) rest)

module _ (e : Env) (c : SourceChannel) (p : Post) (text : Text) where
  -- The body of the text, and the column of the model's answer: the rendered text where the transformation is off
  -- or fails, with the column as it was, and else the answer.
  pub data Body : Text → Option Text → Type 0 where
    plain :
        (e.ai_enabled ≡ false) ⊎ (c.ai_enabled ≡ false) ⊎ (c.ai_mode ≡ AiMode.off)
        → Body text p.ai_transformed_text
    answered :
        (r : TransformResult)
        → (e.ai_enabled ≡ true) × (c.ai_enabled ≡ true) × (c.ai_mode ≢ AiMode.off)
        → transform_text e text (options_of e c) ≡ ok r
        → Body r.text (some r.text)
    refused :
        (x : Exn)
        → (e.ai_enabled ≡ true) × (c.ai_enabled ≡ true) × (c.ai_mode ≢ AiMode.off)
        → transform_text e text (options_of e c) ≡ err x
        → Body text p.ai_transformed_text

  abbrev Stepped : Bool → Result TransformResult → Type 0
  Stepped on r =
      let t =
        if on
        then after_transform e c p text r
        else record { text = text; column = p.ai_transformed_text; event = none } in
      Body t.text t.column

  is_off-off : (m : AiMode) → is_off m ≡ true → m ≡ AiMode.off
  is_off-off AiMode.off h = refl
  is_off-off AiMode.translate h = absurd (ground (arith, h))
  is_off-off AiMode.summarize h = absurd (ground (arith, h))
  is_off-off AiMode.retone h = absurd (ground (arith, h))
  is_off-off AiMode.custom h = absurd (ground (arith, h))

  off-is_off : is_off c.ai_mode ≡ false → c.ai_mode ≢ AiMode.off
  off-is_off h off = absurd (ground (arith, h, off))

  ai_step-Body : Body (ai_step e c p text).text (ai_step e c p text).column
  unfolding ai_step should_ai_transform
  ai_step-Body = go e.ai_enabled refl c.ai_enabled refl (is_off c.ai_mode) refl _ refl
    where
      go :
          (x : Bool)
          → e.ai_enabled ≡ x
          → (y : Bool) → c.ai_enabled ≡ y
          → (z : Bool) → is_off c.ai_mode ≡ z
          → (r : Result TransformResult) → transform_text e text (options_of e c) ≡ r
          → Stepped (x && (y && not z)) r
      go false h y k z l r m = plain (inl h)
      go true h false k z l r m = plain (inr (inl k))
      go true h true k true l r m = plain (inr (inr (is_off-off c.ai_mode l)))
      go true h true k false l (ok r) m = answered r (h, k, off-is_off l) m
      go true h true k false l (err x) m = refused x (h, k, off-is_off l) m

-- The row after the job: what the columns hold, and that all others are left.
pub record IsNormalized (e : Env) (c : SourceChannel) (p : Post) (text : Text) (s : PostState)
    (q : Post) : Type 0 where
  pub body : Text
  pub transformed : Body e c p text body q.ai_transformed_text
  pub branded :
      q.normalized_text
      ≡ some (
          apply_watermark e.chars body
            (if c.watermark_enabled then c.watermark_text else none)
            c.strip_source_tags)
  pub tags :
      q.tag_ids
      ≡ elim c.policy as (λ _. List ℕ) [ Policy.auto ↦ c.default_tag_ids | Policy.queue ↦ [] ]
  pub hash : q.dedupe_hash ≡ some (compute_dedupe_hash e p.raw_text p.raw_media_refs)
  pub files : Files p.raw_media_refs q.media_paths
  pub others : q ≡ record p {
    state = s;
    ai_transformed_text = q.ai_transformed_text;
    normalized_text = q.normalized_text;
    tag_ids = q.tag_ids;
    dedupe_hash = q.dedupe_hash;
    media_paths = q.media_paths;
  }

normalized_post-IsNormalized :
    (e : Env) (c : SourceChannel) (p : Post) (text : Text) (s : PostState)
    → IsNormalized e c p text s
        (record (normalized_post e c (ai_step e c p text) (hash_of e p) p) { state = s })
normalized_post-IsNormalized e c p text s = record {
  body = (ai_step e c p text).text;
  transformed = ai_step-Body e c p text;
  branded = refl;
  tags = tagged c.policy;
  hash = refl;
  files = media_paths_of-Files p.raw_media_refs;
  others = refl;
}
  where
    tagged :
        (x : Policy)
        → (if is_auto x then c.default_tag_ids else [])
          ≡ elim x as (λ _. List ℕ) [ Policy.auto ↦ c.default_tag_ids | Policy.queue ↦ [] ]
    tagged Policy.auto = refl
    tagged Policy.queue = refl

-- For a post that is neither published nor rejected, whose channel is there and whose template renders, with Redis
-- up, the job leaves a row that has the rendered text or the model's answer, with the channel's brand if that is on,
-- the channel's tags if its policy is auto and none if it is queue, the hash of the raw text and media, and the
-- files of the media that were not left out; all else of the row but the state is as it was. Where the content was
-- published within the window the post is rejected and no job is queued; else the state is left, and one job is
-- queued at once for the bot: to publish where the policy is auto, to post the draft where it is queue.
pub normalize-IsNormalized :
    (e : Env) (i : ℕ) (w : World) (p : Post) (c : SourceChannel) (text : Text)
    → get_post i w.db ≡ some p
    → state_in p.state (PostState.published ∷ PostState.rejected ∷ []) ≡ false
    → get_channel p.source_channel_id w.db ≡ some c
    → normalize_text e w.db (template_body c w.db) (opt_or p.raw_text []) (label_of c) (tags_for c)
      ≡ some text
    → w.redis ≡ up
    → let w' = (normalize e i w).1 in
      let repeated =
        is_duplicate e (compute_dedupe_hash e p.raw_text p.raw_media_refs) w.now w.db in
      (q : Post) × (get_post i w'.db ≡ some q)
      × IsNormalized e c p text (if repeated then PostState.rejected else p.state) q
      × (w'.jobs
          ≡ w.jobs
            ++ (if repeated
                then []
                else record {
                  call = elim c.policy as (λ _. JobCall) [
                    | Policy.auto ↦ publish i
                    | Policy.queue ↦ post_draft i
                  ];
                  queue = bot;
                  defer_by = none;
                }
                  ∷ []))
normalize-IsNormalized e i w p c text found live has renders answers = go _ refl
  where
    call : Policy → JobCall
    call x = elim x as (λ _. JobCall) [ Policy.auto ↦ publish i | Policy.queue ↦ post_draft i ]

    job : (x : Policy) → next_job x i ≡ record { call = call x; queue = bot; defer_by = none }
    job Policy.auto = refl
    job Policy.queue = refl

    go :
        (b : Bool)
        → is_duplicate e (hash_of e p) w.now w.db ≡ b
        → (q : Post) × (get_post i (normalize e i w).1.db ≡ some q)
          × IsNormalized e c p text (if b then PostState.rejected else p.state) q
          × ((normalize e i w).1.jobs
              ≡ w.jobs
                ++ (if b
                    then []
                    else record { call = call c.policy; queue = bot; defer_by = none } ∷ []))
    go true dup =
        let (o, row, jobs) = normalize-duplicate e i w p c text found live has renders dup in
        (
          record (normalized_post e c (ai_step e c p text) (hash_of e p) p) {
            state = PostState.rejected;
          },
          row,
          normalized_post-IsNormalized e c p text PostState.rejected,
          jobs ∙ sym (append-nil w.jobs),
        )
    go false new =
        let (o, row, jobs) = normalize-routes e i w p c text found live has renders new answers in
        (
          normalized_post e c (ai_step e c p text) (hash_of e p) p,
          row,
          normalized_post-IsNormalized e c p text p.state,
          jobs ∙ ap (λ j. w.jobs ++ (j ∷ [])) (job c.policy),
        )
