-- ===== src/Tests/Listing.antt =====
-- The listings and the commands of the bot, with one order by the time that posts were received.
use telegram_cms.Prelude.{
  leb, pos, negsuc, ℕ, false, Bool, none, List, [], ◌∷◌, count, arith, ◌≡◌, refl, if◌then◌else◌,
}
use telegram_cms.Enums.{PostState}
use telegram_cms.Models.{Post}
use telegram_cms.World.{World, err, value_error}
use telegram_cms.Api.Pages.{IsDescending, IsOrdering}
use telegram_cms.Api.Queue.Listing.{received, list_queue, list_queue_unserialized}
use telegram_cms.Bot.Commands.{cmd_queue}
use telegram_cms.Bot.Commands.Sent.{IsAnswered, cmd_queue-IsAnswered}
use telegram_cms.Tests.Samples.{env, world, db, post}

-- Insertion by the time, the latest first.
insert_newest : Post → List Post → List Post
insert_newest p [] = p ∷ []
insert_newest p (q ∷ qs) =
    let rest = insert_newest p qs in
    if leb q.received_at p.received_at then p ∷ q ∷ qs else q ∷ rest

unfoldable newest : List Post → List Post
newest [] = []
newest (p ∷ ps) = insert_newest p (newest ps)

count-insert_newest :
    (test : Post → Bool) (p : Post) (qs : List Post)
    → count test (insert_newest p qs) ≡ count test (p ∷ qs)
unfolding insert_newest
count-insert_newest test p [] = refl
count-insert_newest test p (q ∷ qs) = ground (arith, count-insert_newest test p qs)

count-newest : (test : Post → Bool) (ps : List Post) → count test (newest ps) ≡ count test ps
unfolding newest
count-newest test [] = refl
count-newest test (p ∷ ps) =
    ground (arith, count-insert_newest test p (newest ps), count-newest test ps)

insert_newest-IsDescending :
    (p : Post) (qs : List Post)
    → IsDescending received qs
    → IsDescending received (insert_newest p qs)
unfolding insert_newest
insert_newest-IsDescending p [] h = tt
insert_newest-IsDescending p (q ∷ []) h = ground arith
insert_newest-IsDescending p (q ∷ r ∷ rs) h =
    ground (arith, h, insert_newest-IsDescending p (r ∷ rs))

newest-IsDescending : (ps : List Post) → IsDescending received (newest ps)
unfolding newest
newest-IsDescending [] = tt
newest-IsDescending (p ∷ ps) = insert_newest-IsDescending p (newest ps) (newest-IsDescending ps)

newest-IsOrdering : IsOrdering received newest
newest-IsOrdering = record { descending = newest-IsDescending; counts = count-newest }

abbrev later : Post
later = record post { id = 6; state = PostState.pending; received_at = 300 }

abbrev latest : Post
latest = record post { id = 7; state = PostState.pending; received_at = 400 }

abbrev waiting : World
waiting = record world { db = record db { posts = post ∷ later ∷ latest ∷ [] } }

-- For whatever column: the listing asks for one alone.
abbrev by_time : (Post → ℕ) → List Post → List Post
by_time key = newest

list_queue_unserialized_example :
    list_queue (λ p. false) by_time none (pos 2) (pos 1) waiting.db ≡ err value_error
list_queue_unserialized_example =
    list_queue_unserialized (λ p. false) by_time none 2 1 waiting.db (λ p. refl) newest-IsOrdering
      (omega arith)

cmd_queue-IsAnswered_example :
    IsAnswered env 630 waiting.sent (cmd_queue env newest (negsuc 7) waiting).1.sent
cmd_queue-IsAnswered_example =
    cmd_queue-IsAnswered env newest (negsuc 7) waiting (λ n h. omega arith) newest-IsOrdering refl
      (refl, (refl, (refl, tt)))
