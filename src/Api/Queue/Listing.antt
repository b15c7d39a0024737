-- ===== src/Api/Queue/Listing.antt =====
-- api/routers/queue.py: the listing of the queue with its pages, and the reading of one post.
use telegram_cms.Prelude.{
  ltb, ◌&&◌, if◌then◌else◌, ℕ, ℤ, ◌≤◌, pos, Bool, true, false, arith, Option, none, some, List, [],
  ◌∷◌, count, leb, ◌≡◌,
}
use telegram_cms.Enums.{PostState, state_in}
use telegram_cms.Models.{Post}
use telegram_cms.World.{Db, Result, ok, err, http, value_error, get_post}
use telegram_cms.Api.Pages.{Paginated, list_page, IsOrdering}
use telegram_cms.Api.Pages.Bounds.{list_page_unserialized}

-- No state at all and an empty list of states ask for every post.
abbrev pub is_listed : Option (List PostState) → Post → Bool
is_listed none p = true
is_listed (some []) p = true
is_listed (some (s ∷ ss)) p = state_in p.state (s ∷ ss)

abbrev pub received : Post → ℕ
received p = p.received_at

-- `encodes` and `order_by_desc` are those of a page.
unfoldable pub list_queue :
    (Post → Bool)
    → ((Post → ℕ) → List Post → List Post)
    → Option (List PostState)
    → ℤ
    → ℤ
    → Db
    → Result (Paginated Post)
list_queue encodes order_by_desc state limit offset db =
    list_page encodes order_by_desc received (is_listed state) 200 limit offset db.posts

-- The endpoint of one post.
unfoldable pub read_post : ℕ → Db → Result Post
read_post i db = elim (get_post i db) [ none ↦ err (http 404 "post not found") | some p ↦ ok p ]

within_bound : (n : ℕ) → n ≤ 200 → leb n 200 ≡ true
within_bound n h = ground (arith, h)

-- Where pydantic writes no row of the ORM as JSON and the database orders the rows by the time they were received,
-- a listing with a limit of 200 at most, and neither limit nor offset below 0, raises if its page would have a post;
-- if the page has none the listing answers with it, and with the number of the posts of the states that were asked
-- for.
pub list_queue_unserialized :
    (encodes : Post → Bool) (order_by_desc : (Post → ℕ) → List Post → List Post)
    (state : Option (List PostState)) (limit offset : ℕ) (db : Db)
    → ((p : Post) → encodes p ≡ false)
    → IsOrdering received (order_by_desc received)
    → limit ≤ 200
    → let total = count (is_listed state) db.posts in
      list_queue encodes order_by_desc state (pos limit) (pos offset) db ≡ (
        if ltb 0 limit && ltb offset total
        then err value_error
        else ok (record { items = []; total = total; limit = pos limit; offset = pos offset }))
unfolding list_queue
list_queue_unserialized encodes order_by_desc state limit offset db refuses order within =
    list_page_unserialized encodes order_by_desc received order (is_listed state) db.posts 200 limit
      offset (within_bound limit within) refuses
