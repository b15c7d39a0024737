-- ===== src/Bot/Commands/Sent.antt =====
-- What /queue sends.
use telegram_cms.Prelude.{
  ℕ, ◌≤◌, ℤ, int_eq, int_eq→eq, Text, Bool, true, false, List, [], ◌∷◌, ◌++◌, length, All, ◌≡◌,
  refl, ◌⊎◌, inl, inr, if◌then◌else◌,
}
use telegram_cms.Models.{Post}
use telegram_cms.World.{
  World, Call, Reply, delivered, refused, answer, send_message, bot_call, continue, pure,
}
use telegram_cms.Env.{Env}
use telegram_cms.Api.Pages.{IsOrdering}
use telegram_cms.Api.Queue.Listing.{received}
use telegram_cms.Bot.Commands.{queue_text, cmd_queue, answer_with}
use telegram_cms.Bot.Commands.Bounds.{is_bigint, queue_text-length}

-- At most one message was sent, to the editors' group, of this length at most.
abbrev pub IsAnswered : Env → ℕ → List Call → List Call → Type 0
IsAnswered e bound before after =
    (after ≡ before)
    ⊎ ((text : Text) × (length text ≤ bound)
        × (after ≡ before ++ (send_message e.editor_group_id text ∷ [])))

IsAnswered-once :
    (e : Env) (text : Text) (bound : ℕ) (w : World)
    → length text ≤ bound
    → (rs : List Reply)
    → let r = answer rs (send_message e.editor_group_id text) w in
      IsAnswered e bound w.sent (continue r.0 (λ _. pure tt) r.1).1.sent
IsAnswered-once e text bound w short [] = inl refl
IsAnswered-once e text bound w short (delivered m ∷ rs) = inr (text, short, refl)
IsAnswered-once e text bound w short (refused x ∷ rs) = inl refl

-- Where ids have 64 bits, and a number of 64 bits 19 digits at most, /queue sends a message of 630 characters at
-- most to the editors' group or nothing, whatever the posts say, in which chat it was asked and what
-- Telegram answers. Telegram takes 4096 characters.
pub cmd_queue-IsAnswered :
    (e : Env) (newest : List Post → List Post) (chat : ℤ) (w : World)
    → ((n : ℕ) → is_bigint n ≡ true → length (e.decimal n) ≤ 19)
    → IsOrdering received newest
    → is_bigint (length w.db.posts) ≡ true
    → All (λ (p : Post). is_bigint p.id ≡ true) w.db.posts
    → IsAnswered e 630 w.sent (cmd_queue e newest chat w).1.sent
unfolding cmd_queue bot_call
cmd_queue-IsAnswered e newest chat w digits order few ids = go (int_eq chat e.editor_group_id) refl
  where
    go :
        (b : Bool)
        → int_eq chat e.editor_group_id ≡ b
        → IsAnswered e 630 w.sent
            ((if b then answer_with chat (queue_text e newest w.db) else pure tt) w).1.sent
    go false other = inl refl
    go true same = rw (int_eq→eq chat e.editor_group_id same) (
        IsAnswered-once e (queue_text e newest w.db) 630 w
          (queue_text-length e digits newest order w.db few ids) w.replies)
