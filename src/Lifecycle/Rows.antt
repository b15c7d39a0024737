-- ===== src/Lifecycle/Rows.antt =====
-- What holds of one row beside what the laws keep.
use telegram_cms.Prelude.{
  ℕ, ◌≤◌, true, Option, none, some, find, arith, ◌≡◌, refl, ◌∙◌, ◌==◌, sym, subst, ap,
}
use telegram_cms.Enums.{PostState, EventAction}
use telegram_cms.Models.{Post, Payload}
use telegram_cms.World.{Db, get_post, update_post, add_event}
use telegram_cms.Lifecycle.{Who, editor, Phase, phase, Life, Turn, decided, is_decision}
use telegram_cms.Lifecycle.Laws.{Allows, KeepsKey}
use telegram_cms.Lifecycle.Finds.{changed, find-modify-id}

-- The row `i`, if it is there, meets the condition `R`.
pub record Row (P : Db → Type 0) (R : Post → Type 0) (i : ℕ) (db : Db) : Type 0 where
  pub kept : P db
  pub row : (q : Post) → get_post i db ≡ some q → R q

-- One turn.
abbrev pub once : {a : Who} {p q : Phase} → Turn a p q → Life a p q
once t = Life.next Life.here t

module _ {who : Who} (P : Db → Type 0) (a : Allows who P) (i : ℕ) where
  pub Row-weak :
      (R S : Post → Type 0) → ((q : Post) → R q → S q) → (db : Db) → Row P R i db → Row P S i db
  Row-weak R S h db k = record { kept = k.kept; row = λ q found. h q (k.row q found) }

  pub Row-other :
      (R : Post → Type 0) (db db' : Db)
      → db'.posts ≡ db.posts
      → db.sequence ≤ db'.sequence
      → Row P R i db
      → Row P R i db'
  Row-other R db db' same more k = record {
    kept = a.other db db' same more k.kept;
    row = λ q found. k.row q (ap (find (λ (p : Post). p.id == i)) (sym same) ∙ found);
  }

  changed-some :
      (R : Post → Type 0) (f : Post → Post) (o : Option Post) (q : Post)
      → changed f o ≡ some q
      → ((p : Post) → o ≡ some p → R (f p))
      → R q
  changed-some R f none q e h = absurd (ground (arith, e))
  changed-some R f (some p) q e h = subst R (ground (arith, e)) (h p refl)

  found-update :
      (f : Post → Post) (db : Db)
      → KeepsKey f
      → get_post i (update_post i f db) ≡ changed f (get_post i db)
  found-update f db keeps = find-modify-id i i f keeps.ids db.posts ∙ ground arith

  pub Row-update :
      (R : Post → Type 0) (f : Post → Post) (keeps : KeepsKey f) (db : Db)
      → ((p : Post) → get_post i db ≡ some p → Life who (phase p) (phase (f p)) × R (f p))
      → P db
      → Row P R i (update_post i f db)
  Row-update R f keeps db h k = record {
    kept = a.update f keeps i db (λ p found. (h p found).0) k;
    row = λ q found.
        changed-some R f (get_post i db) q (sym (found-update f db keeps) ∙ found)
          (λ p here'. (h p here').1);
  }

  -- An update of columns of the row that no phase shows.
  pub silent-update :
      (f : Post → Post)
      → KeepsKey f
      → ((p : Post) → phase (f p) ≡ phase p)
      → (db : Db) → P db
      → P (update_post i f db)
  silent-update f keeps same db k =
      a.update f keeps i db (λ p _. subst (Life who (phase p)) (sym (same p)) Life.here) k

  pub event-kept :
      (actor : Option ℕ) (action : EventAction) (payload : Payload) (now : ℕ) (db : Db)
      → P db
      → P (add_event i actor action payload now db)
  event-kept actor action payload now db k = a.other db _ refl (omega arith) k

module _ (P : Db → Type 0) (a : Allows editor P) (i : ℕ) where
  -- An editor's decision.
  pub decided-update :
      (s : PostState) (f : Post → Post)
      → is_decision s ≡ true
      → KeepsKey f
      → ((p : Post) → phase (f p) ≡ record { state = s; message = p.published_message_id })
      → (db : Db) → P db
      → P (update_post i f db)
  decided-update s f decision keeps to db k =
      a.update f keeps i db (λ p _. once (decided s refl decision (to p))) k
