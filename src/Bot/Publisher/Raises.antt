-- ===== src/Bot/Publisher/Raises.antt =====
-- What a `publish` job that raises leaves: its failure handler's writes, and the reservation of the hash.
use telegram_cms.Prelude.{
  ℕ, Text, true, false, Option, none, some, [], ◌∷◌, arith, ◌≡◌, refl, ap, ◌∙◌, truthy, take,
}
use telegram_cms.Enums.{PostState, EventAction}
use telegram_cms.Models.{Post, error}
use telegram_cms.World.{
  Db, World, Exn, Result, ok, err, get_post, continue, update_post, add_event, raise,
}
use telegram_cms.Env.{Env}
use telegram_cms.Bot.Publisher.{
  Outcome, publish_core, publish, send_spaced, reserve_dedupe, release_dedupe, text_to_send,
  on_publish_failure,
}
use telegram_cms.Bot.Publisher.Ways.{is_reserved, claimed}
use telegram_cms.Bot.Publisher.Stages.{
  db-IsOutside, get_post-update, alert_failure-Frames, has_hash-insert_hash, has_hash-delete_hash,
}

-- The send of a post that was claimed and whose hash was reserved.
abbrev pub sending : Env → ℕ → Post → World → Result ℕ × World
sending e i p w =
    send_spaced e (text_to_send p) p.raw_media_refs
      (reserve_dedupe p.dedupe_hash (record w { db = claimed i w.db })).1

abbrev pub with_state : Post → PostState → Post
with_state p s = record p { state = s }

-- The failure handler's writes, whatever becomes of the alert.
on_publish_failure-db :
    (e : Env) (i : ℕ) (t : Text) (w : World) (q : Post)
    → get_post i w.db ≡ some q
    → (on_publish_failure e i t w).1.db
      ≡ add_event i none EventAction.publish_failed
          (error (take 500 t))
          w.now
          (update_post i (λ p. with_state p PostState.publish_failed) w.db)
unfolding on_publish_failure
on_publish_failure-db e i t w q found = ground (
  arith,
  found,
  (alert_failure-Frames db-IsOutside e q t).at (record w {
    db =
        add_event i none EventAction.publish_failed (error (take 500 t)) w.now
          (update_post i (λ p. with_state p PostState.publish_failed) w.db);
  }),
)

after_failure :
    (r : Result (Unit {0})) (x : Exn) (w : World)
    → ((continue r (λ _. raise {A = Outcome} x) w).1 ≡ w)
      × ((y : Exn) × ((continue r (λ _. raise {A = Outcome} x) w).0 ≡ err y))
after_failure (ok u) x w = (refl, (x, refl))
after_failure (err y) x w = (refl, (y, refl))

-- A core that raises: the job raises, and the world is what the failure handler leaves.
publish_raises :
    (e : Env) (i : ℕ) (w w' : World) (x : Exn)
    → publish_core e i w ≡ (err x, w')
    → ((publish e i w).1 ≡ (on_publish_failure e i (e.show_exn x) w').1)
      × ((y : Exn) × ((publish e i w).0 ≡ err y))
unfolding publish
publish_raises e i w w' x core =
    let (r, w'') = on_publish_failure e i (e.show_exn x) w' in
    rw (core, publish) (after_failure r x w'')

pub reserve_dedupe-is_reserved :
    (h : Option Text) (w : World) → truthy h ≡ true → is_reserved h (reserve_dedupe h w).1.db ≡ true
unfolding reserve_dedupe
reserve_dedupe-is_reserved none w k = ground (arith, k)
reserve_dedupe-is_reserved (some []) w k = ground (arith, k)
reserve_dedupe-is_reserved (some (c ∷ h)) w k = has_hash-insert_hash (c ∷ h) w.now w.db

pub release_dedupe-is_reserved :
    (h : Option Text) (w : World) → is_reserved h (release_dedupe h w).1.db ≡ false
unfolding release_dedupe
release_dedupe-is_reserved none w = refl
release_dedupe-is_reserved (some []) w = refl
release_dedupe-is_reserved (some (c ∷ h)) w = has_hash-delete_hash (c ∷ h) w.db

pub release_dedupe-ok : (h : Option Text) (w : World) → (release_dedupe h w).0 ≡ ok tt
unfolding release_dedupe
release_dedupe-ok none w = refl
release_dedupe-ok (some []) w = refl
release_dedupe-ok (some (c ∷ h)) w = refl

-- What a core that raises leaves in the database, the handler's writes included.
pub record HasFailed (e : Env) (i : ℕ) (w w' : World) (q : Post) : Type 0 where
  pub raised : (y : Exn) × ((publish e i w).0 ≡ err y)
  pub row : get_post i (publish e i w).1.db ≡ some (with_state q PostState.publish_failed)
  pub hashes : (publish e i w).1.db.dedupe ≡ w'.db.dedupe
  pub channels : (publish e i w).1.db.channels ≡ w'.db.channels

pub publish-HasFailed :
    (e : Env) (i : ℕ) (w w' : World) (x : Exn) (q : Post)
    → publish_core e i w ≡ (err x, w')
    → get_post i w'.db ≡ some q
    → HasFailed e i w w' q
publish-HasFailed e i w w' x q core found =
    let (world, raised) = publish_raises e i w w' x core in
    let db = ap (λ (v : World). v.db) world ∙ on_publish_failure-db e i (e.show_exn x) w' q found in
    record {
      raised = raised;
      row =
          ap (get_post i) db
          ∙ get_post-update i (λ p. with_state p PostState.publish_failed) w'.db.posts q (λ r. refl)
              found;
      hashes = ap (λ (d : Db). d.dedupe) db;
      channels = ap (λ (d : Db). d.channels) db;
    }
