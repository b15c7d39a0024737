-- ===== src/Bot/Publisher/Stages.antt =====
-- What each stage of the `publish` job leaves as it was, and what it writes.
use telegram_cms.Prelude.{
  ℕ, zero, suc, Text, true, false, Option, none, some, List, [], ◌∷◌, arith, ◌≡◌, refl, find,
  modify, find-modify, find-modify_ne, ◌==◌, nonzero, not, any-keep_not, text_eq, text_eq_refl,
  any-append,
}
use telegram_cms.Models.{Post, SourceChannel, MediaRef, PublishedDedupe}
use telegram_cms.World.{Db, World, Exn, Exec, pure, is_telegram_error, retry_after}
use telegram_cms.World.Frames.{
  Frames, Frames-bind, Frames-pure, Frames-if, Frames-try, Frames-raise,
}
use telegram_cms.Env.{Env}
use telegram_cms.Bot.Send.Silent.{IsOutside, bot_call-Frames, sleep-Frames, send_post-Frames}
use telegram_cms.Bot.Publisher.{
  edit_card, edit_draft_card, alert_failure, best_effort, send_again, send_spaced, has_hash,
  insert_hash, delete_hash, reserve_dedupe, release_dedupe,
}

pub db-IsOutside : IsOutside (λ (w : World). w.db)
db-IsOutside = record { call = λ w rs sent. refl; reply = λ w rs. refl; clock = λ w t. refl }

module _ {V : Type 0} {view : World → V} (o : IsOutside view) where
  pub best_effort-Frames : (m : Exec ℕ) → Frames view m → Frames view (best_effort m)
  unfolding best_effort
  best_effort-Frames m h =
      Frames-try view _ _ (Frames-bind view _ _ h (λ _. Frames-pure view tt))
        λ x. Frames-if view (is_telegram_error x) _ _ (Frames-pure view tt) (Frames-raise view x)

  edit_card-Frames :
      (e : Env) (p : Post) (c : SourceChannel) (m : ℕ) → Frames view (edit_card e p c m)
  unfolding edit_card
  edit_card-Frames e p c zero = record { at = λ w. refl }
  edit_card-Frames e p c (suc m) = record {
    at = λ w. (best_effort-Frames _ (bot_call-Frames o _)).at w;
  }

  pub edit_draft_card-Frames :
      (e : Env) (p : Post) (c : SourceChannel) → Frames view (edit_draft_card e p c)
  unfolding edit_draft_card
  edit_draft_card-Frames e p c = go p.draft_message_id
    where
      go : (d : Option ℕ) → Frames view (elim d [ none ↦ pure tt | some m ↦ edit_card e p c m ])
      go none = Frames-pure view tt
      go (some m) = edit_card-Frames e p c m

  pub alert_failure-Frames : (e : Env) (p : Post) (t : Text) → Frames view (alert_failure e p t)
  unfolding alert_failure
  alert_failure-Frames e p t =
      Frames-if view (nonzero e.editor_group_id) _ _ (best_effort-Frames _ (bot_call-Frames o _))
        (Frames-pure view tt)

  send_again-Frames : (m : Exec ℕ) (x : Exn) → Frames view m → Frames view (send_again m x)
  unfolding send_again
  send_again-Frames m (retry_after s) h = Frames-bind view _ _ (sleep-Frames o _) (λ _. h)
  send_again-Frames m _ h = Frames-raise view _

  pub send_spaced-Frames :
      (e : Env) (t : Text) (refs : List MediaRef) → Frames view (send_spaced e t refs)
  unfolding send_spaced
  send_spaced-Frames e t refs =
      let sends = send_post-Frames o e.media_max_size_default e.destination_channel_id t refs in
      Frames-bind view _ _ (sleep-Frames o _)
        λ _. Frames-try view _ _ sends (λ x. send_again-Frames _ x sends)

-- The rows of the post `i` after an assignment to its columns.
pub get_post-update :
    (i : ℕ) (f : Post → Post) (ps : List Post) (p : Post)
    → ((q : Post) → (f q).id ≡ q.id)
    → find (λ (q : Post). q.id == i) ps ≡ some p
    → find (λ (q : Post). q.id == i) (modify (λ (q : Post). q.id == i) f ps) ≡ some (f p)
get_post-update i f ps p keeps e = find-modify _ f ps p (λ q h. rw (keeps q) h) e

pub get_post-update_ne :
    (i j : ℕ) (f : Post → Post) (ps : List Post)
    → (i == j) ≡ false
    → ((q : Post) → (f q).id ≡ q.id)
    → find (λ (q : Post). q.id == j) (modify (λ (q : Post). q.id == i) f ps)
      ≡ find (λ (q : Post). q.id == j) ps
get_post-update_ne i j f ps ne keeps =
    find-modify_ne _ _ f ps (λ q h. ground (arith, keeps q)) (λ q h. ground arith)

-- A release leaves no reservation of the hash.
pub has_hash-delete_hash : (h : Text) (db : Db) → has_hash h (delete_hash h db).dedupe ≡ false
unfolding delete_hash
has_hash-delete_hash h db =
    any-keep_not (λ (d : PublishedDedupe). text_eq d.hash h)
      (λ (d : PublishedDedupe). not (text_eq d.hash h)) db.dedupe (λ d k. ground arith)

pub has_hash-insert_hash :
    (h : Text) (now : ℕ) (db : Db) → has_hash h (insert_hash h now db).0.dedupe ≡ true
unfolding insert_hash
has_hash-insert_hash h now db = ground (
  arith,
  any-append (λ (d : PublishedDedupe). text_eq d.hash h) db.dedupe
      (record { hash = h; published_at = now } ∷ []),
  text_eq_refl h,
)

-- A reservation touches the table of hashes alone.
pub reserve_dedupe-posts : (h : Option Text) → Frames (λ (w : World). w.db.posts) (reserve_dedupe h)
unfolding reserve_dedupe
reserve_dedupe-posts none = record { at = λ w. refl }
reserve_dedupe-posts (some []) = record { at = λ w. refl }
reserve_dedupe-posts (some (c ∷ h)) = record { at = λ w. ground arith }

pub release_dedupe-posts : (h : Option Text) → Frames (λ (w : World). w.db.posts) (release_dedupe h)
unfolding release_dedupe
release_dedupe-posts none = record { at = λ w. refl }
release_dedupe-posts (some []) = record { at = λ w. refl }
release_dedupe-posts (some (c ∷ h)) = record { at = λ w. refl }

pub reserve_dedupe-channels :
    (h : Option Text) → Frames (λ (w : World). w.db.channels) (reserve_dedupe h)
unfolding reserve_dedupe
reserve_dedupe-channels none = record { at = λ w. refl }
reserve_dedupe-channels (some []) = record { at = λ w. refl }
reserve_dedupe-channels (some (c ∷ h)) = record { at = λ w. ground arith }
