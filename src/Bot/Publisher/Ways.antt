-- ===== src/Bot/Publisher/Ways.antt =====
-- The ways through the `publish` job, as equations between its stages.
use telegram_cms.Prelude.{
  ℕ, Text, Bool, true, false, Option, none, some, List, [], ◌∷◌, arith, ◌≡◌, refl, truthy, ◌&&◌,
  opt_or,
}
use telegram_cms.Enums.{PostState, state_in}
use telegram_cms.Models.{Post, SourceChannel, MediaRef}
use telegram_cms.World.{Db, World, ok, get_post, get_channel, update_post}
use telegram_cms.Env.{Env}
use telegram_cms.Bot.Publisher.{
  no_channel, send_and_settle, publish_to, with_channel, claim, guarded, publish_core, with_channel,
  claim, reserve_dedupe, report_duplicate, has_hash, dedupe_exists, skip_states, text_to_send,
}

-- The hash has a row already.
abbrev pub is_reserved : Option Text → Db → Bool
is_reserved h db = truthy h && has_hash (opt_or h []) db.dedupe

module _ (e : Env) (i : ℕ) (c : SourceChannel) (h : Option Text) (text : Text)
    (refs : List MediaRef) (w : World) where
  pub publish_to-reserved :
      is_reserved h w.db ≡ true
      → publish_to e i c h text refs w ≡ report_duplicate i (opt_or h []) w
  unfolding publish_to dedupe_exists
  publish_to-reserved taken = ground (arith, taken)

reserve_dedupe-free :
    (h : Option Text) (w : World) → is_reserved h w.db ≡ false → (reserve_dedupe h w).0 ≡ ok true
unfolding reserve_dedupe
reserve_dedupe-free none w free = refl
reserve_dedupe-free (some []) w free = refl
reserve_dedupe-free (some (c ∷ h)) w free = ground (arith, free)

module _ (e : Env) (i : ℕ) (c : SourceChannel) (h : Option Text) (text : Text)
    (refs : List MediaRef) (w : World) where
  pub publish_to-free :
      is_reserved h w.db ≡ false
      → publish_to e i c h text refs w ≡ send_and_settle e i c h text refs (reserve_dedupe h w).1
  unfolding publish_to dedupe_exists
  publish_to-free free = rw (free, reserve_dedupe-free h w free) refl

-- The post as its job has claimed it.
abbrev pub claimed : ℕ → Db → Db
claimed i = update_post i (λ p. record p { state = PostState.publishing })

abbrev pub IsOpen : Post → Type 0
IsOpen p = (p.published_message_id ≡ none) × (state_in p.state skip_states ≡ false)

module _ (e : Env) (i : ℕ) (w : World) (p : Post) (found : get_post i w.db ≡ some p)
    (open' : IsOpen p) where
  pub publish_core-claims :
      (c : SourceChannel)
      → get_channel p.source_channel_id w.db ≡ some c
      → publish_core e i w
        ≡ publish_to e i c p.dedupe_hash
            (text_to_send p)
            p.raw_media_refs
            (record w { db = claimed i w.db })
  unfolding publish_core guarded claim with_channel
  publish_core-claims c has = ground (arith, found, open', has)

  pub publish_core-no_channel :
      get_channel p.source_channel_id w.db ≡ none
      → publish_core e i w ≡ (ok no_channel, record w { db = claimed i w.db })
  unfolding publish_core guarded claim with_channel
  publish_core-no_channel lacks = ground (arith, found, open', lacks)
