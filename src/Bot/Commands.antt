-- ===== src/Bot/Commands.antt =====
-- bot/handlers/admin.py: the commands /queue, /stats and /health of the editors' group.
pub mod Counts
pub mod Bounds
pub mod Sent
use telegram_cms.Prelude.{
  ℕ, zero, suc, ℤ, int_eq, Text, codes, Bool, true, false, Option, none, some, List, [], ◌∷◌, ◌++◌,
  map, take, count, keep, opt_or, if◌then◌else◌, ◌==◌,
}
use telegram_cms.Enums.{PostState, state_eq}
use telegram_cms.Models.{Post}
use telegram_cms.World.{Db, World, Exec, ◌>>=◌, ◌>>◌, pure, bot_call, send_message}
use telegram_cms.Env.{Env}
use telegram_cms.Bot.Cards.{join}

abbrev pub is_pending : Post → Bool
is_pending p = state_eq p.state PostState.pending

-- `replace("\n", " ")` on one character.
abbrev unbroken : ℕ → ℕ
unbroken c = if c == 10 then 32 else c

abbrev pub preview : Post → Text
preview p = map unbroken (take 80 (opt_or p.normalized_text (opt_or p.raw_text (codes "(empty)"))))

abbrev pub post_line : Env → Post → Text
post_line e p = codes "• #" ++ (e.decimal p.id ++ (codes ": " ++ preview p))

-- `newest` orders the posts by the time they were received, the latest first.
abbrev pub recent : (List Post → List Post) → Db → List Post
recent newest db = take 5 (newest (keep is_pending db.posts))

unfoldable pub queue_text : Env → (List Post → List Post) → Db → Text
queue_text e newest db = join (codes "\n") (
    (codes "<b>Pending queue</b> (" ++ (e.decimal (count is_pending db.posts) ++ codes " total)"))
    ∷ map (post_line e) (recent newest db))

-- The `value` of a state.
abbrev pub state_value : PostState → Text
state_value PostState.pending = codes "pending"
state_value PostState.approved = codes "approved"
state_value PostState.scheduled = codes "scheduled"
state_value PostState.published = codes "published"
state_value PostState.rejected = codes "rejected"
state_value PostState.publishing = codes "publishing"
state_value PostState.publish_failed = codes "publish_failed"

-- `list(PostState)`
abbrev pub all_states : List PostState
all_states =
    PostState.pending ∷ PostState.approved ∷ PostState.scheduled ∷ PostState.published
    ∷ PostState.rejected ∷ PostState.publishing ∷ PostState.publish_failed ∷ []

-- One post more in the group of its state.
abbrev pub tally : PostState → List (PostState × ℕ) → List (PostState × ℕ)
tally s [] = (s, 1) ∷ []
tally s ((t, n) ∷ groups) =
    let rest = tally s groups in if state_eq s t then (t, suc n) ∷ groups else (t, n) ∷ rest

-- `SELECT state, count(id) GROUP BY state`: no group is empty.
abbrev pub grouped : List Post → List (PostState × ℕ)
grouped [] = []
grouped (p ∷ ps) = tally p.state (grouped ps)

-- `counts.get(s, 0)`
abbrev pub count_of : PostState → List (PostState × ℕ) → ℕ
count_of s [] = 0
count_of s ((t, n) ∷ groups) = let rest = count_of s groups in if state_eq s t then n else rest

abbrev pub stat_line : Env → List (PostState × ℕ) → PostState → Text
stat_line e counts s = state_value s ++ (codes ": " ++ e.decimal (count_of s counts))

unfoldable pub stats_text : Env → Db → Text
stats_text e db =
    let counts = grouped db.posts in
    join (codes "\n") (codes "<b>Stats</b>" ∷ map (stat_line e counts) all_states)

-- A command in another chat is ignored.
abbrev pub in_editors : Env → ℤ → Exec (Unit {0}) → Exec (Unit {0})
in_editors e chat m = if int_eq chat e.editor_group_id then m else pure tt

abbrev pub answer_with : ℤ → Text → Exec (Unit {0})
answer_with chat text = do bot_call (send_message chat text); pure tt

unfoldable pub cmd_queue : Env → (List Post → List Post) → ℤ → Exec (Unit {0})
unfolding queue_text
cmd_queue e newest chat w = in_editors e chat (answer_with chat (queue_text e newest w.db)) w

unfoldable pub cmd_stats : Env → ℤ → Exec (Unit {0})
unfolding stats_text
cmd_stats e chat w = in_editors e chat (answer_with chat (stats_text e w.db)) w

unfoldable pub cmd_health : Env → ℤ → Exec (Unit {0})
cmd_health e chat = in_editors e chat (answer_with chat (codes "✅ bot up"))
