-- ===== src/Api/SourceChannels/Mirror.antt =====
-- The join table and the default tags of the channels.
use telegram_cms.Prelude.{
  ℕ, ◌≤◌, ◌<◌, Bool, true, false, not, ◌&&◌, List, [], ◌∷◌, ◌++◌, map, any, any-append, append-nil,
  modify-All, elem, All, arith, ◌≡◌, ◌∙◌, ◌==◌, if◌then◌else◌,
}
use telegram_cms.Models.{SourceChannel, SourceChannelTag}
use telegram_cms.World.{Db, ok}
use telegram_cms.Api.SourceChannels.{tag_link, unlinked, update_row, set_default_tag_links}

abbrev pub has_link : ℕ → ℕ → List SourceChannelTag → Bool
has_link j t = any (λ (l : SourceChannelTag). (l.source_channel_id == j) && (l.tag_id == t))

abbrev pub Mirrors : List SourceChannelTag → SourceChannel → Type 0
Mirrors links c = (t : ℕ) → has_link c.id t links ≡ elem t c.default_tag_ids

-- Each channel's links are its default tags; ids and links are of channels that were made.
pub record IsMirrored (db : Db) : Type 0 where
  pub mirrors : All (Mirrors db.channel_tags) db.channels
  pub made : All (λ (c : SourceChannel). c.id < db.sequence) db.channels
  pub linked : (j t : ℕ) → db.sequence ≤ j → has_link j t db.channel_tags ≡ false

pub has_link-unlinked :
    (i j t : ℕ) (ls : List SourceChannelTag)
    → has_link j t (unlinked i ls) ≡ (not (i == j) && has_link j t ls)
has_link-unlinked i j t [] = ground arith
has_link-unlinked i j t (l ∷ ls) = ground (arith, has_link-unlinked i j t ls)

has_link-map :
    (i j t : ℕ) (ts : List ℕ) → has_link j t (map (tag_link i) ts) ≡ ((i == j) && elem t ts)
has_link-map i j t [] = ground arith
has_link-map i j t (u ∷ us) = ground (arith, has_link-map i j t us)

-- The links after the tags of the channel `i` were set.
abbrev pub links_set : ℕ → List ℕ → List SourceChannelTag → List SourceChannelTag
links_set i ts ls = unlinked i ls ++ map (tag_link i) ts

pub set_default_tag_links-ok :
    (i : ℕ) (ts : List ℕ) (db db' : Db)
    → set_default_tag_links i ts db ≡ ok db'
    → record db { channel_tags = links_set i ts db.channel_tags } ≡ db'
unfolding set_default_tag_links
set_default_tag_links-ok i [] db db' done =
    ground (arith, done, append-nil (unlinked i db.channel_tags))
set_default_tag_links-ok i (t ∷ ts) db db' done = ground (arith, done)

pub has_link-links_set :
    (i j t : ℕ) (ts : List ℕ) (ls : List SourceChannelTag)
    → has_link j t (links_set i ts ls) ≡ (if i == j then elem t ts else has_link j t ls)
has_link-links_set i j t ts ls = ground (
  arith,
  any-append (λ (l : SourceChannelTag). (l.source_channel_id == j) && (l.tag_id == t))
      (unlinked i ls) (map (tag_link i) ts),
  has_link-unlinked i j t ls,
  has_link-map i j t ts,
)

-- A change of rows that keeps their ids and their default tags, and that leaves the links.
pub update_row-IsMirrored :
    (i : ℕ) (f : SourceChannel → SourceChannel) (db : Db)
    → ((c : SourceChannel) → (f c).id ≡ c.id)
    → ((c : SourceChannel) → (f c).default_tag_ids ≡ c.default_tag_ids)
    → IsMirrored db
    → IsMirrored (update_row i f db)
update_row-IsMirrored i f db ids tags h = record {
  mirrors =
      modify-All (Mirrors db.channel_tags) (Mirrors db.channel_tags) _ f db.channels
        (λ c _ k t. rw (ids c) (rw (tags c) (k t))) (λ c _ k. k) h.mirrors;
  made =
      modify-All (λ (c : SourceChannel). c.id < db.sequence)
        (λ (c : SourceChannel). c.id < db.sequence) _ f db.channels (λ c _ k. rw (ids c) k)
        (λ c _ k. k) h.made;
  linked = h.linked;
}

-- The tags of a channel, and its links with them.
abbrev pub tags_set : ℕ → List ℕ → Db → Db
tags_set i ts db = record (update_row i (λ c. record c { default_tag_ids = ts }) db) {
  channel_tags = links_set i ts db.channel_tags;
}

module _ (i : ℕ) (ts : List ℕ) (ls : List SourceChannelTag) (c : SourceChannel) where
  Mirrors-hit : (c.id == i) ≡ true → Mirrors (links_set i ts ls) (record c { default_tag_ids = ts })
  Mirrors-hit same t = has_link-links_set i c.id t ts ls ∙ ground (arith, same)

  pub Mirrors-miss : (c.id == i) ≡ false → Mirrors ls c → Mirrors (links_set i ts ls) c
  Mirrors-miss other h t = has_link-links_set i c.id t ts ls ∙ ground (arith, other, h t)

pub tags_set-IsMirrored :
    (i : ℕ) (ts : List ℕ) (db : Db)
    → i < db.sequence
    → IsMirrored db
    → IsMirrored (tags_set i ts db)
tags_set-IsMirrored i ts db made h = record {
  mirrors =
      modify-All (Mirrors db.channel_tags) (Mirrors (links_set i ts db.channel_tags)) _ _
        db.channels (λ c same _. Mirrors-hit i ts db.channel_tags c same)
        (λ c other k. Mirrors-miss i ts db.channel_tags c other k) h.mirrors;
  made =
      modify-All (λ (c : SourceChannel). c.id < db.sequence)
        (λ (c : SourceChannel). c.id < db.sequence) _ _ db.channels (λ c _ k. k) (λ c _ k. k)
        h.made;
  linked = λ j t above.
      has_link-links_set i j t ts db.channel_tags ∙ ground (arith, h.linked j t above, made, above);
}
