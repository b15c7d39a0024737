-- ===== src/Api/Tags/Removal.antt =====
-- What a deleted tag leaves behind.
use telegram_cms.Prelude.{
  ℕ, false, not, some, List, [], ◌∷◌, arith, ◌≡◌, refl, any, any-keep_not, modify, elem, ◌==◌,
}
use telegram_cms.Models.{Tag, Post}
use telegram_cms.World.{Db, ok, get_tag}
use telegram_cms.Api.Tags.{delete_tag, array_remove, without_tag}

elem-array_remove : (i : ℕ) (js : List ℕ) → elem i (array_remove i js) ≡ false
elem-array_remove i js =
    any-keep_not (λ j. i == j) (λ j. not (i == j)) js (λ j h. ground (arith, h))

any-stripped :
    (i : ℕ) (ps : List Post)
    → any
        (λ (p : Post). elem i p.tag_ids)
        (modify
          (λ (p : Post). elem i p.tag_ids)
          (λ p. record p { tag_ids = array_remove i p.tag_ids })
          ps)
      ≡ false
any-stripped i [] = refl
any-stripped i (p ∷ ps) = ground (arith, elem-array_remove i p.tag_ids, any-stripped i ps)

-- A deletion of a tag that is there leaves no post and no row of tags with its id, and leaves the
-- default tags of the channels as they were, so a channel may still name it.
pub delete_tag_lem :
    (i : ℕ) (db : Db) (t : Tag)
    → get_tag i db ≡ some t
    → (db' : Db) × (delete_tag i db ≡ ok db')
      × (any (λ (p : Post). elem i p.tag_ids) db'.posts ≡ false)
      × (any (λ (u : Tag). u.id == i) db'.tags ≡ false)
      × (db'.channels ≡ db.channels)
unfolding delete_tag
delete_tag_lem i db t found = (
  without_tag i db,
  ground (arith, found),
  any-stripped i db.posts,
  any-keep_not (λ (u : Tag). u.id == i) (λ (u : Tag). not (u.id == i)) db.tags
      (λ u h. ground (arith, h)),
  refl,
)
