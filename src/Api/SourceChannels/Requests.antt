-- ===== src/Api/SourceChannels/Requests.antt =====
-- The requests that write channels, and the links of their default tags.
use telegram_cms.Prelude.{
  ℕ, ◌<◌, Option, none, some, List, [], ◌∷◌, keep-All, append-All, map-All, find-All, find_sound,
  Option-cases, subst, All, arith, ◌≡◌, refl, ◌∙◌, ◌==◌, inl, inr,
}
use telegram_cms.Models.{SourceChannel, SourceChannelTag}
use telegram_cms.World.{Db, Result, ok, get_channel}
use telegram_cms.Env.{Env}
use telegram_cms.Api.SourceChannels.{
  SourceChannelCreate, SourceChannelUpdate, unlinked, set_fields, update_row, change_tags,
  create_channel, update_channel, delete_channel, with_channel, without_channel, AiSettingsUpdate,
  set_ai, update_ai_settings,
}
use telegram_cms.Api.SourceChannels.Mirror.{
  Mirrors, IsMirrored, links_set, has_link-unlinked, set_default_tag_links-ok, has_link-links_set,
  update_row-IsMirrored, tags_set-IsMirrored, Mirrors-miss,
}

others-Mirrors :
    (i : ℕ) (ts : List ℕ) (ls : List SourceChannelTag) (cs : List SourceChannel)
    → All (λ (c : SourceChannel). c.id < i) cs
    → All (Mirrors ls) cs
    → All (Mirrors (links_set i ts ls)) cs
others-Mirrors i ts ls [] m h = tt
others-Mirrors i ts ls (c ∷ cs) m h =
    (Mirrors-miss i ts ls c (ground (arith, m.0)) h.0, others-Mirrors i ts ls cs m.1 h.1)

created-IsMirrored :
    (e : Env) (payload : SourceChannelCreate) (now : ℕ) (db db' : Db)
    → create_channel e payload now db ≡ ok db'
    → IsMirrored db
    → IsMirrored db'
unfolding create_channel
created-IsMirrored e payload now db db' done h =
    subst IsMirrored
      (set_default_tag_links-ok db.sequence payload.default_tag_ids (with_channel e payload now db)
        db' (ground (arith, done)))
      (record {
        mirrors =
            append-All _ db.channels _
              (others-Mirrors db.sequence payload.default_tag_ids db.channel_tags db.channels h.made
                h.mirrors)
              (
                λ t.
                    has_link-links_set db.sequence db.sequence t payload.default_tag_ids
                      db.channel_tags
                    ∙ ground arith,
                tt,
              );
        made =
            append-All _ db.channels _ (map-All _ _ (λ c k. omega arith) db.channels h.made)
              (omega arith, tt);
        linked = λ j t above.
            has_link-links_set db.sequence j t payload.default_tag_ids db.channel_tags
            ∙ ground (arith, h.linked j t (omega arith), above);
      })

change_tags-IsMirrored :
    (i : ℕ) (tags : Option (Option (List ℕ))) (db db' : Db)
    → change_tags i tags db ≡ ok db'
    → i < db.sequence
    → IsMirrored db
    → IsMirrored db'
unfolding change_tags
change_tags-IsMirrored i none db db' done made h = subst IsMirrored (ground (arith, done)) h
change_tags-IsMirrored i (some none) db db' done made h = subst IsMirrored (ground (arith, done)) h
change_tags-IsMirrored i (some (some ts)) db db' done made h =
    subst IsMirrored (set_default_tag_links-ok i ts _ db' done) (tags_set-IsMirrored i ts db made h)

updated-IsMirrored :
    (i : ℕ) (payload : SourceChannelUpdate) (db db' : Db)
    → update_channel i payload db ≡ ok db'
    → IsMirrored db
    → IsMirrored db'
unfolding update_channel
updated-IsMirrored i payload db db' done h = elim (Option-cases (get_channel i db)) [
  | inl missing ↦ absurd (ground (arith, done, missing))
  | inr (c, found) ↦
      change_tags-IsMirrored i payload.default_tag_ids (update_row i (set_fields payload) db) db'
        (ground (arith, done, found)) (below c found)
        (update_row-IsMirrored i (set_fields payload) db (λ c. refl) (λ c. refl) h)
]
  where
    below : (c : SourceChannel) → get_channel i db ≡ some c → i < db.sequence
    below c found = ground (
      arith,
      find-All (λ (c : SourceChannel). c.id < db.sequence) (λ (c : SourceChannel). c.id == i)
          db.channels c found h.made,
      find_sound (λ (c : SourceChannel). c.id == i) db.channels c found,
    )

deleted-IsMirrored :
    (i : ℕ) (db db' : Db) → delete_channel i db ≡ ok db' → IsMirrored db → IsMirrored db'
unfolding delete_channel
deleted-IsMirrored i db db' done h = subst IsMirrored gone (record {
  mirrors =
      keep-All (Mirrors db.channel_tags) (Mirrors (unlinked i db.channel_tags)) _ db.channels
        (λ c other k t. has_link-unlinked i c.id t db.channel_tags ∙ ground (arith, other, k t))
        h.mirrors;
  made = keep-All _ _ _ db.channels (λ c _ k. k) h.made;
  linked =
      λ j t above. has_link-unlinked i j t db.channel_tags ∙ ground (arith, h.linked j t above);
})
  where
    gone : without_channel i db ≡ db'
    gone = ground (arith, done)

-- The requests of the two routers that write.
pub data Request : Type 0 where
  creation : SourceChannelCreate → ℕ → Request
  change : ℕ → SourceChannelUpdate → Request
  ai_change : ℕ → AiSettingsUpdate → Request
  deletion : ℕ → Request

unfoldable pub handle : Env → Request → Db → Result Db
handle e (creation payload now) db = create_channel e payload now db
handle e (change i payload) db = update_channel i payload db
handle e (ai_change i payload) db = update_ai_settings i payload db
handle e (deletion i) db = delete_channel i db

-- A request of the routers of the channels that succeeds keeps the join table the mirror of the default tags:
-- each channel is linked to exactly the tags of its list, and no link is of a channel that was never made.
pub handle-IsMirrored :
    (e : Env) (r : Request) (db db' : Db) → handle e r db ≡ ok db' → IsMirrored db → IsMirrored db'
unfolding handle update_ai_settings
handle-IsMirrored e (creation payload now) db db' done h =
    created-IsMirrored e payload now db db' done h
handle-IsMirrored e (change i payload) db db' done h = updated-IsMirrored i payload db db' done h
handle-IsMirrored e (ai_change i payload) db db' done h =
    subst IsMirrored changed (update_row-IsMirrored i (set_ai payload) db (λ c. refl) (λ c. refl) h)
  where
    changed : update_row i (set_ai payload) db ≡ db'
    changed = ground (arith, done)
handle-IsMirrored e (deletion i) db db' done h = deleted-IsMirrored i db db' done h
