-- ===== src/Lifecycle/Follows.antt =====
-- The course of one id, under the writes of the services.
use telegram_cms.Prelude.{
  ℕ, suc, ◌<◌, ◌≤◌, ltb, Bool, true, false, Option, none, some, List, [], ◌∷◌, ◌++◌, keep, find,
  find_sound, find-All, All, arith, ◌≡◌, refl, ◌∙◌, ◌==◌, sym, subst, ap, if◌then◌else◌,
}
use telegram_cms.Models.{Post}
use telegram_cms.World.{Db, get_post, update_post}
use telegram_cms.World.Keyed.{IsKeyed}
use telegram_cms.Lifecycle.{
  Who, ingester, remover, phase, Life, fresh, is_final, Stage, alive, Courses, skipped, arrived,
  turned, removed, stage, stage_of,
}
use telegram_cms.Lifecycle.Finds.{
  changed, find-modify-id, find-rewrite, find-append-one, find-keep-id,
}
use telegram_cms.Lifecycle.Laws.{Allows, KeepsKey}
use telegram_cms.Lifecycle.Keyed.{IsKeyed-Allows}

-- The id `i` went its course from `s` on, by what `a` writes.
pub record Follows (a : Who) (i : ℕ) (s : Stage) (db : Db) : Type 0 where
  pub keyed : IsKeyed db
  pub course : Courses a s (stage i db)

module _ (a : Who) (s : Stage) where
  -- Ids are drawn.
  drawn :
      (o : Option Post) (b c : Bool)
      → (b ≡ true → c ≡ true)
      → Courses a s (stage_of o b)
      → Courses a s (stage_of o c)
  drawn (some p) b c h k = k
  drawn none true true h k = k
  drawn none true false h k = absurd (ground (arith, h refl))
  drawn none false true h k = Courses.next k skipped
  drawn none false false h k = k

  turn :
      (f : Post → Post) (o : Option Post) (b c : Bool)
      → ((p : Post) → b ≡ true → o ≡ some p → Life a (phase p) (phase (f p)))
      → Courses a s (stage_of o c)
      → Courses a s (stage_of (if b then changed f o else o) c)
  turn f (some p) true c h k = Courses.next k (turned (h p refl refl))
  turn f none true c h k = k
  turn f o false c h k = k

  rewritten :
      (f : Post → Post) (o : Option Post) (c : Bool)
      → ((p : Post) → phase (f p) ≡ phase p)
      → Courses a s (stage_of o c)
      → Courses a s (stage_of (changed f o) c)
  rewritten f none c h k = k
  rewritten f (some p) c h k = subst (λ x. Courses a s (alive x)) (sym (h p)) k

  inserted :
      a ≡ ingester
      → (x : Post) (o : Option Post) (b c d : Bool) → phase x ≡ fresh
      → (b ≡ true → c ≡ false)
      → (c ≡ true → d ≡ true)
      → Courses a s (stage_of o c)
      → Courses a s (
          stage_of
            (elim o as (λ _. Option Post) [ some p ↦ some p | none ↦ if b then some x else none ])
            d)
  inserted who x (some p) b c d new at up k = k
  inserted who x none true true d new at up k = absurd (ground (arith, at refl))
  inserted who x none true false d new at up k =
      subst (λ y. Courses a s (alive y)) (sym new) (Courses.next k (arrived who))
  inserted who x none false c d new at up k = drawn none c d up k

  deleted :
      a ≡ remover
      → (test : Post → Bool) (o : Option Post) (c : Bool) → ((p : Post) → o ≡ some p → c ≡ true)
      → ((p : Post) → o ≡ some p → test p ≡ false → is_final p.state ≡ true)
      → Courses a s (stage_of o c)
      → Courses a s (
          stage_of
            (elim o as (λ _. Option Post) [
              | some p ↦ if test p then some p else none
              | none ↦ none
            ])
            c)
  deleted who test none c below final k = k
  deleted who test (some p) c below final k = go (test p) refl
    where
      go : (b : Bool) → test p ≡ b → Courses a s (stage_of (if b then some p else none) c)
      go true kept = k
      go false dropped =
          subst (λ d. Courses a s (stage_of none d)) (sym (below p refl))
            (Courses.next k (removed who (final p refl dropped)))

unturned :
    (test : Post → Bool) (f : Post → Post) (p : Post) (b : Bool)
    → phase (f p) ≡ phase p
    → phase (if b then f p else p) ≡ phase p
unturned test f p true h = h
unturned test f p false h = refl

module _ (a : Who) (i : ℕ) (s : Stage) where
  abbrev At : List Post → ℕ → Type 0
  At ps n = Courses a s (stage_of (find (λ (p : Post). p.id == i) ps) (ltb i n))

  other-At :
      (db db' : Db)
      → db'.posts ≡ db.posts
      → db.sequence ≤ db'.sequence
      → At db.posts db.sequence
      → At db'.posts db'.sequence
  other-At db db' same more k =
      subst (λ ps. At ps db'.sequence) (sym same)
        (drawn a s (get_post i db) (ltb i db.sequence) (ltb i db'.sequence)
          (λ below. ground (arith, below, more)) k)

  update-At :
      (f : Post → Post)
      → KeepsKey f
      → (j : ℕ) (db : Db) → ((p : Post) → get_post j db ≡ some p → Life a (phase p) (phase (f p)))
      → At db.posts db.sequence
      → At (update_post j f db).posts db.sequence
  update-At f keeps j db life k =
      subst (λ o. Courses a s (stage_of o (ltb i db.sequence)))
        (sym (find-modify-id i j f keeps.ids db.posts))
        (turn a s f (get_post i db) (j == i) (ltb i db.sequence)
          (λ p same found. life p (ap (λ n. get_post n db) (ground (arith, same)) ∙ found)) k)

  insert-At :
      a ≡ ingester
      → (row : Post) (db : Db) → row.id ≡ db.sequence
      → phase row ≡ fresh
      → At db.posts db.sequence
      → At (db.posts ++ (row ∷ [])) (suc db.sequence)
  insert-At who row db at new k =
      subst (λ o. Courses a s (stage_of o (ltb i (suc db.sequence))))
        (sym (find-append-one i db.posts row))
        (inserted a s who row (get_post i db) (row.id == i) (ltb i db.sequence)
          (ltb i (suc db.sequence)) new (λ same. ground (arith, same, at))
          (λ below. ground (arith, below)) k)

  delete-At :
      a ≡ remover
      → (test : Post → Bool) (db : Db)
      → All (λ (p : Post). test p ≡ false → is_final p.state ≡ true) db.posts
      → IsKeyed db
      → At db.posts db.sequence
      → At (keep test db.posts) db.sequence
  delete-At who test db final keyed k =
      subst (λ o. Courses a s (stage_of o (ltb i db.sequence)))
        (sym (find-keep-id i test db.posts keyed.keys))
        (deleted a s who test (get_post i db) (ltb i db.sequence)
          (λ p found.
            below p (find_sound (λ (p : Post). p.id == i) db.posts p found)
              (find-All _ (λ (p : Post). p.id == i) db.posts p found keyed.made))
          (λ p found. find-All _ (λ (p : Post). p.id == i) db.posts p found final) k)
    where
      below : (p : Post) → (p.id == i) ≡ true → p.id < db.sequence → ltb i db.sequence ≡ true
      below p at made = ground (arith, at, made)

  pub Follows-Allows : Allows a (Follows a i s)
  Follows-Allows = record {
    other = λ db db' same more h. record {
      keyed = (IsKeyed-Allows a).other db db' same more h.keyed;
      course = other-At db db' same more h.course;
    };
    update = λ f keeps j db life h. record {
      keyed = (IsKeyed-Allows a).update f keeps j db life h.keyed;
      course = update-At f keeps j db life h.course;
    };
    rewrite = λ test f keeps same db h. record {
      keyed = (IsKeyed-Allows a).rewrite test f keeps same db h.keyed;
      course =
          subst (λ o. Courses a s (stage_of o (ltb i db.sequence)))
            (sym (find-rewrite i test f keeps.ids db.posts))
            (rewritten a s (λ p. if test p then f p else p) (get_post i db) (ltb i db.sequence)
              (λ p. unturned test f p (test p) (same p)) h.course);
    };
    insert = λ who row db at new key h. record {
      keyed = (IsKeyed-Allows a).insert who row db at new key h.keyed;
      course = insert-At who row db at new h.course;
    };
    delete = λ who test db final h. record {
      keyed = (IsKeyed-Allows a).delete who test db final h.keyed;
      course = delete-At who test db final h.keyed h.course;
    };
  }
