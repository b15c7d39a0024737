-- ===== src/Bot/Publisher/Race.antt =====
-- Any number of `publish` jobs for posts with one dedupe hash, interleaved as the transactions of the
-- database order them: the check, the insert of the reservation, the send and the release of
-- bot/publisher.py. A job reads and claims its post's row in separate transactions, so nothing is
-- assumed of the rows' states. The pruning of the hash's row is not among the steps.
use telegram_cms.Prelude.{
  ◌⊎◌, ℕ, ◌≤◌, ◌<◌, Text, Bool, true, false, arith, ◌≡◌, refl, ◌==◌, if◌then◌else◌, ◌+◌, Bool-cases,
  inl, inr, ◌∙◌,
}
use telegram_cms.World.{Db}
use telegram_cms.Bot.Publisher.{has_hash, dedupe_exists, insert_hash, delete_hash}
use telegram_cms.Bot.Publisher.Stages.{has_hash-insert_hash}

-- Where a job stands. `failing` has an error and has not yet released its reservation.
pub data Stage : Type 0 where
  begun checked holding failing failed sent lost duplicate recorded : Stage

pub record Jobs : Type 0 where
  pub db : Db
  pub stage : ℕ → Stage
  pub delivered : ℕ

abbrev pub at : (ℕ → Stage) → ℕ → Stage → ℕ → Stage
at f j x k = if k == j then x else f k

-- The next stage after the check, and after the insert.
abbrev pub after_check : Bool → Stage
after_check true = duplicate
after_check false = checked

abbrev pub after_insert : Bool → Stage
after_insert true = holding
after_insert false = duplicate

abbrev pub to : Jobs → ℕ → Stage → Jobs
to s j x = record s { stage = at s.stage j x }

module _ (h : Text) where
  pub data Step : Jobs → Jobs → Type 0 where
    check :
        (s : Jobs) (j : ℕ)
        → s.stage j ≡ begun
        → Step s (to s j (after_check (dedupe_exists h s.db)))
    reserve :
        (s : Jobs) (j now : ℕ)
        → s.stage j ≡ checked
        → Step s (record s {
          db = (insert_hash h now s.db).0;
          stage = at s.stage j (after_insert (insert_hash h now s.db).1);
        })
    deliver :
        (s : Jobs) (j : ℕ)
        → s.stage j ≡ holding
        → Step s (record s { stage = at s.stage j sent; delivered = s.delivered + 1 })
    fail : (s : Jobs) (j : ℕ) → s.stage j ≡ holding → Step s (to s j failing)
    release :
        (s : Jobs) (j : ℕ)
        → s.stage j ≡ failing
        → Step s (record s { db = delete_hash h s.db; stage = at s.stage j failed })
    record_sent :
        (s : Jobs) (j now : ℕ)
        → s.stage j ≡ sent
        → Step s (record s { db = (insert_hash h now s.db).0; stage = at s.stage j recorded })
    lose : (s : Jobs) (j : ℕ) → s.stage j ≡ sent → Step s (to s j lost)
    retry_failed : (s : Jobs) (j : ℕ) → s.stage j ≡ failed → Step s (to s j begun)
    retry_lost : (s : Jobs) (j : ℕ) → s.stage j ≡ lost → Step s (to s j begun)
    -- Any transaction that leaves the rows of this hash.
    other :
        (s : Jobs) (db : Db)
        → has_hash h db.dedupe ≡ has_hash h s.db.dedupe
        → Step s (record s { db = db })

  pub data Reach (s : Jobs) : Jobs → Type 0 where
    here : Reach s s
    next : {t u : Jobs} → Reach s t → Step t u → Reach s u

abbrev holds : Stage → Bool
holds holding = true
holds failing = true
holds _ = false

record IsExclusive (h : Text) (s : Jobs) : Type 0 where
  unique : (i j : ℕ) → holds (s.stage i) ≡ true → holds (s.stage j) ≡ true → i ≡ j
  reserved : (j : ℕ) → holds (s.stage j) ≡ true → has_hash h s.db.dedupe ≡ true
  unsent : (j : ℕ) → holds (s.stage j) ≡ true → s.delivered ≡ 0
  kept : 0 < s.delivered → has_hash h s.db.dedupe ≡ true
  once : s.delivered ≤ 1

insert_hash-free :
    (h : Text) (now : ℕ) (db : Db) → has_hash h db.dedupe ≡ false → (insert_hash h now db).1 ≡ true
unfolding insert_hash
insert_hash-free h now db free = rw free

insert_hash-taken :
    (h : Text) (now : ℕ) (db : Db)
    → has_hash h db.dedupe ≡ true
    → insert_hash h now db ≡ (db, false)
unfolding insert_hash
insert_hash-taken h now db taken = rw taken

-- A job that stops holding, or never held.
to-IsExclusive :
    (h : Text) (s : Jobs) (j : ℕ) (x : Stage) (db : Db)
    → holds x ≡ false
    → (has_hash h s.db.dedupe ≡ true → has_hash h db.dedupe ≡ true)
    → IsExclusive h s
    → IsExclusive h (record s { db = db; stage = at s.stage j x })
to-IsExclusive h s j x db free same v = record {
  unique = λ a b p q. ground (arith, free, v.unique a b);
  reserved = λ a p. same (ground (arith, free, v.reserved a));
  unsent = λ a p. ground (arith, free, v.unsent a);
  kept = λ p. same (v.kept p);
  once = v.once;
}

Step-IsExclusive : (h : Text) {s t : Jobs} → Step h s t → IsExclusive h s → IsExclusive h t
Step-IsExclusive h (check s j e) v = to-IsExclusive h s j _ s.db (ground arith) (λ k. k) v
Step-IsExclusive h (reserve s j now e) v = elim (Bool-cases (has_hash h s.db.dedupe)) [
  | inl taken ↦
      rw (insert_hash-taken h now s.db taken) (to-IsExclusive h s j duplicate s.db refl (λ k. k) v)
  | inr free ↦ rw (insert_hash-free h now s.db free) (record {
    unique = λ a b p q. ground (arith, free, v.reserved a, v.reserved b);
    reserved = λ a p. has_hash-insert_hash h now s.db;
    unsent = λ a p. ground (arith, free, v.kept);
    kept = λ p. has_hash-insert_hash h now s.db;
    once = v.once;
  })
]
Step-IsExclusive h (deliver s j e) v = record {
  unique = λ a b p q. ground (arith, v.unique a b);
  reserved = λ a p. ground (arith, v.reserved a);
  unsent = λ a p. ground (arith, e, v.unique a j);
  kept = λ p. v.reserved j (ground (arith, e));
  once = ground (arith, e, v.unsent j);
}
Step-IsExclusive h (fail s j e) v = record {
  unique = λ a b p q. ground (arith, e, v.unique a b, v.unique a j, v.unique b j);
  reserved = λ a p. ground (arith, e, v.reserved a, v.reserved j);
  unsent = λ a p. ground (arith, e, v.unsent a, v.unsent j);
  kept = v.kept;
  once = v.once;
}
Step-IsExclusive h (release s j e) v = record {
  unique = λ a b p q. ground (arith, v.unique a b);
  reserved = λ a p. ground (arith, e, v.unique a j);
  unsent = λ a p. ground (arith, v.unsent a);
  kept = λ p. ground (arith, e, v.unsent j);
  once = v.once;
}
Step-IsExclusive h (record_sent s j now e) v =
    to-IsExclusive h s j recorded _ refl (λ k. has_hash-insert_hash h now s.db) v
Step-IsExclusive h (lose s j e) v = to-IsExclusive h s j _ s.db refl (λ k. k) v
Step-IsExclusive h (retry_failed s j e) v = to-IsExclusive h s j _ s.db refl (λ k. k) v
Step-IsExclusive h (retry_lost s j e) v = to-IsExclusive h s j _ s.db refl (λ k. k) v
Step-IsExclusive h (other s db same) v = record {
  unique = v.unique;
  reserved = λ a p. same ∙ v.reserved a p;
  unsent = v.unsent;
  kept = λ p. same ∙ v.kept p;
  once = v.once;
}

Reach-IsExclusive : (h : Text) {s t : Jobs} → IsExclusive h s → Reach h s t → IsExclusive h t
Reach-IsExclusive h v here = v
Reach-IsExclusive h v (next r st) = Step-IsExclusive h st (Reach-IsExclusive h v r)

-- Every job is to begin, and nothing was delivered.
abbrev pub start : Db → Jobs
start db = record { db = db; stage = λ j. begun; delivered = 0 }

start-IsExclusive : (h : Text) (db : Db) → IsExclusive h (start db)
start-IsExclusive h db = record {
  unique = λ i j p q. cc;
  reserved = λ j p. cc;
  unsent = λ j p. cc;
  kept = λ p. absurd (omega arith);
  once = omega arith;
}

-- However the jobs for one hash interleave, fail and are retried, either no send of its content has
-- ended as delivered, or exactly one has and the hash is reserved, while its row is not pruned.
pub Reach-delivered_once :
    (h : Text) (db : Db) (s : Jobs)
    → Reach h (start db) s
    → (s.delivered ≡ 0) ⊎ ((s.delivered ≡ 1) × (has_hash h s.db.dedupe ≡ true))
Reach-delivered_once h db s r =
    let v = Reach-IsExclusive h (start-IsExclusive h db) r in ground (arith, v.once, v.kept)
