-- ===== src/Bot/Draft/Cards.antt =====
-- One card for each post: it is posted once, and edited from then on.
use telegram_cms.Prelude.{
  ℕ, suc, true, none, some, List, [], ◌∷◌, ◌++◌, Text, nonzero, arith, ◌≡◌, refl,
}
use telegram_cms.Models.{Post, SourceChannel}
use telegram_cms.World.{
  World, Exn, Reply, ok, bot_call, get_post, get_channel, is_telegram_error, edit_message_text,
}
use telegram_cms.Env.{Env}
use telegram_cms.Bot.Cards.{build_draft_payload}
use telegram_cms.Bot.Publisher.Stages.{get_post-update}
use telegram_cms.Bot.Draft.{post_draft, posted, refreshed, failed}

module _ (e : Env) (i : ℕ) (p : Post) (channel : SourceChannel) (t : Text)
    (group : nonzero e.editor_group_id ≡ true) (normalized : p.normalized_text ≡ some t) where
  post_draft-carded :
      (w : World) (m k : ℕ) (rest : List Reply)
      → get_post i w.db ≡ some p
      → get_channel p.source_channel_id w.db ≡ some channel
      → p.draft_message_id ≡ some (suc m)
      → w.replies ≡ Reply.delivered k ∷ rest
      → let (text, keyboard) = build_draft_payload e p channel w.db in
        post_draft e i w ≡ (
          ok refreshed,
          record w {
            replies = rest;
            sent = w.sent ++ (edit_message_text e.editor_group_id (suc m) text keyboard ∷ []);
          },
        )
  unfolding post_draft bot_call
  post_draft-carded w m k rest found has_channel carded answers =
      ground (arith, group, normalized, found, has_channel, carded, answers)

  -- `post_draft` of a normalized post, where Telegram refuses the call with an error of its API, reports
  -- the error and leaves the database as it was: a later job may try again.
  pub post_draft_refused :
      (w : World) (x : Exn) (rest : List Reply)
      → get_post i w.db ≡ some p
      → get_channel p.source_channel_id w.db ≡ some channel
      → w.replies ≡ Reply.refused x ∷ rest
      → is_telegram_error x ≡ true
      → post_draft e i w ≡ (ok (failed x), record w { replies = rest })
  unfolding post_draft bot_call
  post_draft_refused w x rest found has_channel refused telegram =
      ground (arith, group, normalized, found, has_channel, refused, telegram)

-- `post_draft` of a normalized post without a card, where Telegram delivers, posts one and stores its id;
-- the same job run again edits that card to the post as it is then, posts no second card and writes
-- nothing.
pub post_draft_twice :
    (e : Env) (i : ℕ) (w : World) (p : Post) (channel : SourceChannel) (t : Text) (m k : ℕ)
    (rest : List Reply)
    → nonzero e.editor_group_id ≡ true
    → p.normalized_text ≡ some t
    → p.draft_message_id ≡ none
    → get_post i w.db ≡ some p
    → get_channel p.source_channel_id w.db ≡ some channel
    → w.replies ≡ Reply.delivered (suc m) ∷ Reply.delivered k ∷ rest
    → let w' = (post_draft e i w).1 in
      let q = record p { draft_message_id = some (suc m) } in
      let (text, keyboard) = build_draft_payload e q channel w'.db in
      ((post_draft e i w).0 ≡ ok posted)
      × (get_post i w'.db ≡ some q)
      × (post_draft e i w' ≡ (
        ok refreshed,
        record w' {
          replies = rest;
          sent = w'.sent ++ (edit_message_text e.editor_group_id (suc m) text keyboard ∷ []);
        },
      ))
unfolding post_draft bot_call
post_draft_twice e i w p channel t m k rest group normalized new found has_channel answers = (
  ground (arith, group, normalized, new, found, has_channel, answers),
  row,
  post_draft-carded e i (record p { draft_message_id = some (suc m) }) channel t group normalized
      (post_draft e i w).1 m k rest row
      (ground (arith, group, normalized, new, found, has_channel, answers)) refl
      (ground (arith, group, normalized, new, found, has_channel, answers)),
)
  where
    row : get_post i (post_draft e i w).1.db ≡ some (record p { draft_message_id = some (suc m) })
    row = ground (
      arith,
      group,
      normalized,
      new,
      found,
      has_channel,
      answers,
      get_post-update i (λ q. record q { draft_message_id = some (suc m) }) w.db.posts p (λ q. refl)
          found,
    )
