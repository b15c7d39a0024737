-- ===== src/Bot/Publisher/Guards.antt =====
-- The checks before a post is claimed.
use telegram_cms.Prelude.{inl, inr, ℕ, none, some, arith, ◌≡◌, ◌⊎◌}
use telegram_cms.Enums.{PostState}
use telegram_cms.Models.{Post}
use telegram_cms.World.{World, ok, get_post}
use telegram_cms.Env.{Env}
use telegram_cms.Bot.Publisher.{
  Outcome, not_found, skip, already_published, guarded, publish_core, publish,
}

-- A post that has a message, or that is rejected, published or in another job's hands, and what its job reports.
pub data IsSettled (p : Post) : Outcome → Type 0 where
  sent : (m : ℕ) → p.published_message_id ≡ some m → IsSettled p already_published
  closed :
      p.published_message_id ≡ none
      → (p.state ≡ PostState.rejected)
        ⊎ (p.state ≡ PostState.published)
        ⊎ (p.state ≡ PostState.publishing)
      → IsSettled p (skip p.state)

-- `publish` of a post that has a message, or whose state is rejected, published or publishing, reports
-- which it is, and sends nothing and changes nothing.
pub publish-IsSettled :
    (e : Env) (i : ℕ) (w : World) (p : Post) (o : Outcome)
    → get_post i w.db ≡ some p
    → IsSettled p o
    → publish e i w ≡ (ok o, w)
unfolding publish publish_core guarded
publish-IsSettled e i w p o found (sent m has) = ground (arith, found, has)
publish-IsSettled e i w p o found (closed lacks (inl s)) = ground (arith, found, lacks, s)
publish-IsSettled e i w p o found (closed lacks (inr (inl s))) = ground (arith, found, lacks, s)
publish-IsSettled e i w p o found (closed lacks (inr (inr s))) = ground (arith, found, lacks, s)

-- `publish` of a post that is not there reports so, and sends nothing and changes nothing.
pub publish-none :
    (e : Env) (i : ℕ) (w : World) → get_post i w.db ≡ none → publish e i w ≡ (ok not_found, w)
unfolding publish publish_core
publish-none e i w missing = ground (arith, missing)
