-- ===== src/Bot/Publisher/Published.antt =====
-- What holds when `publish` reports success.
use telegram_cms.Prelude.{ℕ, suc, Text, Option, some, arith, ◌≡◌, refl}
use telegram_cms.Enums.{PostState}
use telegram_cms.Models.{Post, SourceChannel}
use telegram_cms.World.{Db, World, ok, get_post}
use telegram_cms.Env.{Env}
use telegram_cms.Bot.Publisher.{published, settle, mark_published}
use telegram_cms.Bot.Publisher.Stages.{db-IsOutside, edit_draft_card-Frames, get_post-update}

-- The row of a post with its message recorded; the other columns are as they were.
abbrev pub published_post : Post → ℕ → ℕ → Post
published_post p m t = record p {
  state = PostState.published;
  published_message_id = some (suc m);
  published_at = some t;
}

-- The row `i`, which was `p`, is published with a message.
abbrev pub IsPublished : ℕ → Post → Db → Type 0
IsPublished i p db = (m : ℕ) × (t : ℕ) × (get_post i db ≡ some (published_post p m t))

module _ (e : Env) (i : ℕ) where
  mark_published-IsPublished :
      (m : ℕ) (h : Option Text) (w : World) (p : Post)
      → get_post i w.db ≡ some p
      → (mark_published e i (suc m) h w).0 ≡ ok tt
      → get_post i (mark_published e i (suc m) h w).1.db ≡ some (published_post p m w.now)
  unfolding mark_published
  mark_published-IsPublished m h w p found k = ground (
    arith,
    found,
    k,
    get_post-update i (λ (q : Post). published_post q m w.now) w.db.posts p (λ q. refl),
  )

  pub settle-row :
      (c : SourceChannel) (h : Option Text) (m : ℕ) (w : World) (p : Post)
      → get_post i w.db ≡ some p
      → (settle e i c h (ok (suc m)) w).0 ≡ ok published
      → get_post i (settle e i c h (ok (suc m)) w).1.db ≡ some (published_post p m w.now)
  unfolding settle
  settle-row c h m w p found k = ground (
    arith,
    k,
    found,
    mark_published-IsPublished m h w p,
    (edit_draft_card-Frames db-IsOutside e (published_post p m w.now) c).at
        (mark_published e i (suc m) h w).1,
  )
