-- ===== src/Api/SourceChannels/Turns.antt =====
-- The requests on channels, and what they keep of the posts.
use telegram_cms.Prelude.{
  ℕ, true, false, not, Option, none, some, List, keep, map-All, arith, ◌≡◌, refl, ◌==◌, subst,
  Option-cases, inl, inr, All,
}
use telegram_cms.Models.{Post}
use telegram_cms.World.{Db, Result, ok, get_channel}
use telegram_cms.Env.{Env}
use telegram_cms.Lifecycle.{Who, bystander, remover, is_final}
use telegram_cms.Lifecycle.Laws.{Allows}
use telegram_cms.Api.SourceChannels.{
  with_channel, create_channel, set_fields, set_ai, update_row, change_tags, update_channel,
  without_channel, delete_channel, update_ai_settings,
}
use telegram_cms.Api.SourceChannels.Mirror.{set_default_tag_links-ok}
use telegram_cms.Api.SourceChannels.Removal.{
  Deletion, unknown, held, gone, MayGo, delete_channel_lem,
}
use telegram_cms.Api.SourceChannels.Requests.{
  Request, creation, change, ai_change, deletion, handle,
}

MayGo-is_final :
    (i : ℕ) (p : Post)
    → MayGo i p
    → not (p.source_channel_id == i) ≡ false
    → is_final p.state ≡ true
MayGo-is_final i p (inl other) h = absurd (ground (arith, other, h))
MayGo-is_final i p (inr (inl s)) h = ground (arith, s)
MayGo-is_final i p (inr (inr s)) h = ground (arith, s)

-- A deletion that answered.
deleted_posts :
    (i : ℕ) (db db' : Db) (r : Result Db) → Deletion i db r → r ≡ ok db' → All (MayGo i) db.posts
deleted_posts i db db' _ (unknown e) done = absurd (ground (arith, done))
deleted_posts i db db' _ (held e) done = absurd (ground (arith, done))
deleted_posts i db db' _ (gone d may kept left) done = may

-- Whose turns a request may take: a deletion alone removes posts.
abbrev pub requester : Request → Who
requester (creation _ _) = bystander
requester (change _ _) = bystander
requester (ai_change _ _) = bystander
requester (deletion _) = remover

module _ {who : Who} (P : Db → Type 0) (laws : Allows who P) where
  tags_kept :
      (i : ℕ) (tags : Option (Option (List ℕ))) (db db' : Db)
      → change_tags i tags db ≡ ok db'
      → P db
      → P db'
  unfolding change_tags
  tags_kept i none db db' done h = subst P (ground (arith, done)) h
  tags_kept i (some none) db db' done h = subst P (ground (arith, done)) h
  tags_kept i (some (some ts)) db db' done h =
      subst P (set_default_tag_links-ok i ts _ db' done) (laws.other db _ refl (omega arith) h)

deleted_kept :
    (P : Db → Type 0)
    → Allows remover P
    → (i : ℕ) (db db' : Db) → delete_channel i db ≡ ok db'
    → P db
    → P db'
unfolding delete_channel
deleted_kept P laws i db db' done h = subst P gone (
    laws.other (record db { posts = keep (λ (p : Post). not (p.source_channel_id == i)) db.posts })
      (without_channel i db) refl (omega arith)
      (laws.delete refl (λ (p : Post). not (p.source_channel_id == i)) db
        (map-All _ _ (λ p may. MayGo-is_final i p may) db.posts
          (deleted_posts i db db' _ (delete_channel_lem i db) done))
        h))
  where
    gone : without_channel i db ≡ db'
    gone = ground (arith, done)

pub handle_kept :
    (P : Db → Type 0) (e : Env) (r : Request)
    → Allows (requester r) P
    → (db db' : Db) → handle e r db ≡ ok db'
    → P db
    → P db'
unfolding handle create_channel update_channel update_ai_settings
handle_kept P e (creation payload now) laws db db' done h =
    subst P
      (set_default_tag_links-ok db.sequence payload.default_tag_ids (with_channel e payload now db)
        db' (ground (arith, done)))
      (laws.other db _ refl (omega arith) h)
handle_kept P e (change i payload) laws db db' done h = elim (Option-cases (get_channel i db)) [
  | inl missing ↦ absurd (ground (arith, done, missing))
  | inr (c, found) ↦
      tags_kept P laws i payload.default_tag_ids (update_row i (set_fields payload) db) db'
        (ground (arith, done, found)) (laws.other db _ refl (omega arith) h)
]
handle_kept P e (ai_change i payload) laws db db' done h =
    subst P changed (laws.other db (update_row i (set_ai payload) db) refl (omega arith) h)
  where
    changed : update_row i (set_ai payload) db ≡ db'
    changed = ground (arith, done)
handle_kept P e (deletion i) laws db db' done h = deleted_kept P laws i db db' done h
