-- ===== src/Lifecycle.antt =====
-- What may become of a post, whatever its text, its media and its tags: the abstract machine that the services
-- drive together. Its states are those of shared/enums.py, with the id of the published message.
pub mod Laws
pub mod Keyed
pub mod Finds
pub mod Follows
pub mod Rows
use telegram_cms.Prelude.{ℕ, ltb, Bool, true, false, Option, none, some, List, [], ◌∷◌, ◌≡◌, refl}
use telegram_cms.Enums.{PostState}
use telegram_cms.Models.{Post}
use telegram_cms.World.{Db, get_post}

pub record Phase : Type 0 where
  pub state : PostState
  pub message : Option ℕ

abbrev pub phase : Post → Phase
phase p = record { state = p.state; message = p.published_message_id }

-- An editor approves, schedules or rejects; a duplicate is rejected too.
abbrev pub is_decision : PostState → Bool
is_decision PostState.pending = false
is_decision PostState.approved = true
is_decision PostState.scheduled = true
is_decision PostState.published = false
is_decision PostState.rejected = true
is_decision PostState.publishing = false
is_decision PostState.publish_failed = false

-- A publish job takes a post that no other job has taken, and that was neither published nor rejected.
abbrev pub is_open : PostState → Bool
is_open PostState.pending = true
is_open PostState.approved = true
is_open PostState.scheduled = true
is_open PostState.published = false
is_open PostState.rejected = false
is_open PostState.publishing = false
is_open PostState.publish_failed = true

-- A publish job that took it may fail, before or after the message was recorded.
abbrev pub is_taken : PostState → Bool
is_taken PostState.pending = false
is_taken PostState.approved = false
is_taken PostState.scheduled = false
is_taken PostState.published = true
is_taken PostState.rejected = false
is_taken PostState.publishing = true
is_taken PostState.publish_failed = false

-- A channel is deleted with posts that are published or rejected.
abbrev pub is_final : PostState → Bool
is_final PostState.pending = false
is_final PostState.approved = false
is_final PostState.scheduled = false
is_final PostState.published = true
is_final PostState.rejected = true
is_final PostState.publishing = false
is_final PostState.publish_failed = false

-- Who writes: the userbot's handler, the worker's normalize job, an editor, the publish job, the request that deletes
-- a channel, and all the rest.
pub data Who : Type 0 where
  ingester normalizer editor publisher remover bystander : Who

pub data Turn (a : Who) (p q : Phase) : Type 0 where
  decided :
      (s : PostState) → a ≡ editor → is_decision s ≡ true → q ≡ record p { state = s } → Turn a p q
  -- The worker finds that the content was published before.
  repeated :
      a ≡ normalizer
      → is_final p.state ≡ false
      → q ≡ record p { state = PostState.rejected }
      → Turn a p q
  claimed :
      a ≡ publisher
      → is_open p.state ≡ true
      → p.message ≡ none
      → q ≡ record p { state = PostState.publishing }
      → Turn a p q
  -- The publisher finds that the content was published before.
  beaten :
      a ≡ publisher
      → p.state ≡ PostState.publishing
      → p.message ≡ none
      → q ≡ record p { state = PostState.rejected }
      → Turn a p q
  delivered :
      (m : ℕ)
      → a ≡ publisher
      → p.state ≡ PostState.publishing
      → p.message ≡ none
      → q ≡ record { state = PostState.published; message = some m }
      → Turn a p q
  failed :
      a ≡ publisher
      → is_taken p.state ≡ true
      → q ≡ record p { state = PostState.publish_failed }
      → Turn a p q

-- Any number of turns.
pub data Life (a : Who) (p : Phase) : Phase → Type 0 where
  here : Life a p p
  next : {q r : Phase} → Life a p q → Turn a q r → Life a p r

-- An id is unborn until the sequence comes to it.
pub data Stage : Type 0 where
  unborn gone : Stage
  alive : Phase → Stage

abbrev pub fresh : Phase
fresh = record { state = PostState.pending; message = none }

pub data Course (a : Who) : Stage → Stage → Type 0 where
  skipped : Course a unborn gone
  arrived : a ≡ ingester → Course a unborn (alive fresh)
  turned : {p q : Phase} → Life a p q → Course a (alive p) (alive q)
  removed : {p : Phase} → a ≡ remover → is_final p.state ≡ true → Course a (alive p) gone

pub data Courses (a : Who) (s : Stage) : Stage → Type 0 where
  here : Courses a s s
  next : {t u : Stage} → Courses a s t → Course a t u → Courses a s u

abbrev pub stage_of : Option Post → Bool → Stage
stage_of (some p) drawn = alive (phase p)
stage_of none true = gone
stage_of none false = unborn

-- What the abstract machine sees of an id in the database.
abbrev pub stage : ℕ → Db → Stage
stage i db = stage_of (get_post i db) (ltb i db.sequence)
