-- ===== src/Api/Audit.antt =====
-- api/routers/audit.py: the listings of the log of events.
use telegram_cms.Prelude.{
  ℕ, ℤ, ◌==◌, ◌&&◌, Bool, true, Option, none, some, List, [], ◌∷◌, any, keep,
}
use telegram_cms.Enums.{EventAction, action_eq}
use telegram_cms.Models.{PostEvent}
use telegram_cms.World.{Db, Result}
use telegram_cms.Api.Pages.{Paginated, list_page}

abbrev is_of_post : Option ℕ → PostEvent → Bool
is_of_post none v = true
is_of_post (some i) v = v.post_id == i

abbrev is_of_action : Option (List EventAction) → PostEvent → Bool
is_of_action none v = true
is_of_action (some []) v = true
is_of_action (some (a ∷ rest)) v = any (λ b. action_eq v.action b) (a ∷ rest)

abbrev created : PostEvent → ℕ
created v = v.created_at

-- `encodes` and `order_by_desc` are those of a page.
unfoldable pub list_events :
    (PostEvent → Bool)
    → ((PostEvent → ℕ) → List PostEvent → List PostEvent)
    → Option ℕ
    → Option (List EventAction)
    → ℤ
    → ℤ
    → Db
    → Result (Paginated PostEvent)
list_events encodes order_by_desc i action limit offset db =
    list_page encodes order_by_desc created (λ v. is_of_post i v && is_of_action action v) 500 limit
      offset db.events

-- The events of one post, the earliest first: `order_by` is the database's, and pydantic reads them as PostEventOut.
unfoldable pub list_post_events :
    ((PostEvent → ℕ) → List PostEvent → List PostEvent) → ℕ → Db → List PostEvent
list_post_events order_by i db =
    order_by created (keep (λ (v : PostEvent). v.post_id == i) db.events)
