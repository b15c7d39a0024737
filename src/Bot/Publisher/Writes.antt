-- ===== src/Bot/Publisher/Writes.antt =====
-- bot/publisher.py: the writes of one publish job to its row, and the turns that the row takes with them.
use telegram_cms.Prelude.{
  ℕ, Text, take, Bool, true, false, Option, none, some, [], ◌∷◌, ◌≡◌, refl, truthy, opt_or,
  if◌then◌else◌, arith,
}
use telegram_cms.Enums.{PostState, EventAction}
use telegram_cms.Models.{Post, error, dedupe_race}
use telegram_cms.World.{
  Db, World, Result, ok, err, unmapped_instance, ◌>>◌, commit, get_post, add_event, update_post,
}
use telegram_cms.World.Triples.{Ends, Triple, Triple-pure, Triple-Frames, Triple-commit}
use telegram_cms.Env.{Env}
use telegram_cms.Lifecycle.{publisher, is_taken, beaten, delivered, failed}
use telegram_cms.Lifecycle.Laws.{Allows, same_key}
use telegram_cms.Lifecycle.Rows.{Row, Row-weak, Row-other, Row-update, once, event-kept}
use telegram_cms.Bot.Publisher.{
  insert_hash, reserve_dedupe, release_dedupe, delete_hash, mark_duplicate, published_row,
  mark_published, on_publish_failure, alert_failure,
}
use telegram_cms.Bot.Publisher.Stages.{db-IsOutside, alert_failure-Frames}

-- In the middle of the job, and after the message was recorded.
abbrev pub IsClaimed : Post → Type 0
IsClaimed q = (q.state ≡ PostState.publishing) × (q.published_message_id ≡ none)

abbrev pub IsTaken : Post → Type 0
IsTaken q = is_taken q.state ≡ true

IsClaimed-IsTaken : (q : Post) → IsClaimed q → IsTaken q
IsClaimed-IsTaken q h = ground (arith, h)

module _ (P : Db → Type 0) (a : Allows publisher P) (e : Env) (i : ℕ) where
  abbrev Claimed : Db → Type 0
  Claimed = Row P IsClaimed i

  abbrev Taken : Db → Type 0
  Taken = Row P IsTaken i

  pub Claimed-Taken : (db : Db) → Claimed db → Taken db
  Claimed-Taken = Row-weak P a i IsClaimed IsTaken IsClaimed-IsTaken

  insert_hash-Claimed :
      (R : Post → Type 0) (h : Text) (now : ℕ) (db : Db)
      → Row P R i db
      → Row P R i (insert_hash h now db).0
  unfolding insert_hash
  insert_hash-Claimed R h now db k = Row-other P a i R db _ (ground arith) (ground arith) k

  pub reserve_dedupe-Claimed : (h : Option Text) → Triple Claimed (reserve_dedupe h) Claimed Taken
  unfolding reserve_dedupe
  reserve_dedupe-Claimed none = record { at = λ w k. k }
  reserve_dedupe-Claimed (some []) = record { at = λ w k. k }
  reserve_dedupe-Claimed (some (c ∷ h)) = record {
    at = λ w k. insert_hash-Claimed IsClaimed (c ∷ h) w.now w.db k;
  }

  pub release_dedupe-Claimed : (h : Option Text) → Triple Claimed (release_dedupe h) Claimed Taken
  unfolding release_dedupe delete_hash
  release_dedupe-Claimed none = Triple-pure Claimed Claimed Taken tt (λ db k. k)
  release_dedupe-Claimed (some []) = Triple-pure Claimed Claimed Taken tt (λ db k. k)
  release_dedupe-Claimed (some (c ∷ h)) =
      Triple-commit Claimed Claimed Taken _
        (λ db k. Row-other P a i IsClaimed db _ refl (omega arith) k)

  pub mark_duplicate-Claimed : (h : Text) → Triple Claimed (mark_duplicate i h) P Taken
  unfolding mark_duplicate
  mark_duplicate-Claimed h = record { at = λ w k. go w k (get_post i w.db) }
    where
      go :
          (w : World)
          → Claimed w.db
          → (o : Option Post)
          → let r = elim o as (λ _. Result (Unit {0}) × World) [
            | none ↦ (ok tt, w)
            | some post ↦
                commit
                  (λ db.
                    add_event i none EventAction.duplicate
                      (dedupe_race h)
                      w.now
                      (update_post i (λ p. record p { state = PostState.rejected }) db))
                  w
          ] in
            Ends P Taken r.0 r.1.db
      go w k none = k.kept
      go w k (some post) = event-kept P a i none _ _ w.now _ (
          a.update (λ p. record p { state = PostState.rejected }) (same_key _ (λ p. refl)) i w.db
            (λ p found. once (beaten refl ((k.row p found).0) ((k.row p found).1) refl)) k.kept)

  published_row-Taken : (m now : ℕ) (db : Db) → Claimed db → Taken (published_row e i m now db)
  unfolding published_row
  published_row-Taken m now db k =
      Row-other P a i IsTaken
        (update_post i
          (λ p. record p {
            state = PostState.published;
            published_message_id = some m;
            published_at = some now;
          })
          db)
        _ refl (omega arith)
        (Row-update P a i IsTaken _ (same_key _ (λ p. refl)) db
          (λ p found. (once (delivered m refl ((k.row p found).0) ((k.row p found).1) refl), refl))
          k.kept)

  pub mark_published-Claimed :
      (m : ℕ) (h : Option Text) → Triple Claimed (mark_published e i m h) Taken Taken
  unfolding mark_published
  mark_published-Claimed m h = record {
    at = λ w k. go w k (get_post i w.db) (truthy h) e.accepts_statement;
  }
    where
      go :
          (w : World)
          → Claimed w.db
          → (o : Option Post) (b c : Bool)
          → let r = elim o as (λ _. Result (Unit {0}) × World) [
            | none ↦ (ok tt, w)
            | some post ↦
                if b
                then (if c
                    then commit
                        (λ db. (insert_hash (opt_or h []) w.now (published_row e i m w.now db)).0)
                        w
                    else (err unmapped_instance, w))
                else commit (published_row e i m w.now) w
          ] in
            Ends Taken Taken r.0 r.1.db
      go w k none b c = Claimed-Taken w.db k
      go w k (some post) true true =
          insert_hash-Claimed IsTaken (opt_or h []) w.now _ (published_row-Taken m w.now w.db k)
      go w k (some post) true false = Claimed-Taken w.db k
      go w k (some post) false c = published_row-Taken m w.now w.db k

  pub failure-Taken : (text : Text) → Triple Taken (on_publish_failure e i text) P P
  unfolding on_publish_failure
  failure-Taken text = record { at = λ w k. go w k (get_post i w.db) }
    where
      go :
          (w : World)
          → Taken w.db
          → (o : Option Post)
          → let r = elim o as (λ _. Result (Unit {0}) × World) [
            | none ↦ (ok tt, w)
            | some post ↦
                (do
                  commit (λ db.
                      add_event i none EventAction.publish_failed
                        (error (take 500 text))
                        w.now
                        (update_post i (λ p. record p { state = PostState.publish_failed }) db))
                  alert_failure e post text)
                  w
          ] in
            Ends P P r.0 r.1.db
      go w k none = k.kept
      go w k (some post) =
          (Triple-Frames P P (λ db k. k) _ (alert_failure-Frames db-IsOutside e post text)).at
            (record w {
              db =
                  add_event i none EventAction.publish_failed (error (take 500 text)) w.now
                    (update_post i (λ p. record p { state = PostState.publish_failed }) w.db);
            })
            (event-kept P a i none _ _ w.now _ (
              a.update (λ p. record p { state = PostState.publish_failed }) (same_key _ (λ p. refl))
                i w.db (λ p found. once (failed refl (k.row p found) refl)) k.kept))
