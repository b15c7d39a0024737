-- ===== src/Lifecycle/Laws.antt =====
-- The writes that the services make to the table of posts, as laws of what they keep true of the database.
use telegram_cms.Prelude.{
  ℕ, suc, ◌≤◌, Bool, true, false, any, All, keep, modify, some, [], ◌∷◌, ◌++◌, ◌≡◌, ap,
}
use telegram_cms.Models.{Post}
use telegram_cms.World.{Db, get_post, update_post}
use telegram_cms.World.Keyed.{has_key}
use telegram_cms.Lifecycle.{phase, Life, fresh, is_final, Who, ingester, remover}

-- The columns that are never written again.
pub record KeepsKey (f : Post → Post) : Type 0 where
  pub ids : (p : Post) → (f p).id ≡ p.id
  pub channels : (p : Post) → (f p).source_channel_id ≡ p.source_channel_id
  pub messages : (p : Post) → (f p).source_message_id ≡ p.source_message_id

abbrev key : Post → ℕ × ℕ × ℕ
key p = (p.id, p.source_channel_id, p.source_message_id)

pub same_key : (f : Post → Post) → ((p : Post) → key (f p) ≡ key p) → KeepsKey f
same_key f h = record {
  ids = λ p. ap (λ (k : ℕ × ℕ × ℕ). k.0) (h p);
  channels = λ p. ap (λ (k : ℕ × ℕ × ℕ). k.1) (h p);
  messages = λ p. ap (λ (k : ℕ × ℕ × ℕ). k.2) (h p);
}

-- What `a` writes.
pub record Allows (a : Who) (P : Db → Type 0) : Type 0 where
  -- The posts are left, and ids may be drawn.
  pub other : (db db' : Db) → db'.posts ≡ db.posts → db.sequence ≤ db'.sequence → P db → P db'
  -- A row takes turns.
  pub update :
      (f : Post → Post)
      → KeepsKey f
      → (j : ℕ) (db : Db) → ((p : Post) → get_post j db ≡ some p → Life a (phase p) (phase (f p)))
      → P db
      → P (update_post j f db)
  -- Some rows are written, and none takes a turn.
  pub rewrite :
      (test : Post → Bool) (f : Post → Post)
      → KeepsKey f
      → ((p : Post) → phase (f p) ≡ phase p)
      → (db : Db) → P db
      → P (record db { posts = modify test f db.posts })
  -- A new row, with a new key.
  pub insert :
      a ≡ ingester
      → (row : Post) (db : Db) → row.id ≡ db.sequence
      → phase row ≡ fresh
      → any (has_key row.source_channel_id row.source_message_id) db.posts ≡ false
      → P db
      → P (record db { posts = db.posts ++ (row ∷ []); sequence = suc db.sequence })
  -- Rows that are final are deleted.
  pub delete :
      a ≡ remover
      → (test : Post → Bool) (db : Db)
      → All (λ (p : Post). test p ≡ false → is_final p.state ≡ true) db.posts
      → P db
      → P (record db { posts = keep test db.posts })
