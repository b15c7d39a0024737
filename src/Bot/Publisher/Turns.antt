-- ===== src/Bot/Publisher/Turns.antt =====
-- The publish job, and the turns that its post takes.
use telegram_cms.Prelude.{
  ℕ, zero, suc, Text, Bool, true, false, Option, none, some, List, [], ◌≡◌, refl, truthy, opt_or,
  is_some, if◌then◌else◌, ◌&&◌, arith, ◌∙◌, ap, sym, subst,
}
use telegram_cms.Enums.{PostState, state_in}
use telegram_cms.Models.{Post, SourceChannel, MediaRef}
use telegram_cms.World.{
  Db, World, Result, ok, err, Exec, Exn, no_message_id, ◌>>◌, pure, raise, get_db, get_post,
  get_channel, update_post,
}
use telegram_cms.World.Keeps.{Keeps}
use telegram_cms.World.Triples.{
  Ends, Triple, Triple-bind, Triple-pure, Triple-raise, Triple-if, Triple-try, Triple-Frames,
  Triple-get_db, Keeps-Triple,
}
use telegram_cms.Env.{Env}
use telegram_cms.Lifecycle.{publisher, is_open, claimed, phase, Life}
use telegram_cms.Lifecycle.Laws.{Allows, same_key}
use telegram_cms.Lifecycle.Rows.{Row, Row-update, once}
use telegram_cms.Bot.Publisher.{
  Outcome, duplicate, published, no_channel, not_found, already_published, skip, skip_states,
  release_dedupe, settle, send_and_settle, report_duplicate, publish_to, with_channel, claim,
  guarded, publish_core, edit_draft_card, send_spaced, dedupe_exists, publish,
}
use telegram_cms.Bot.Publisher.Stages.{db-IsOutside, edit_draft_card-Frames, send_spaced-Frames}
use telegram_cms.Bot.Publisher.Writes.{
  IsClaimed, IsTaken, Claimed-Taken, reserve_dedupe-Claimed, release_dedupe-Claimed,
  mark_duplicate-Claimed, mark_published-Claimed, failure-Taken,
}

module _ (P : Db → Type 0) (a : Allows publisher P) (e : Env) (i : ℕ) where
  abbrev Claimed : Db → Type 0
  Claimed = Row P IsClaimed i

  abbrev Taken : Db → Type 0
  Taken = Row P IsTaken i

  card-Taken :
      (c : SourceChannel) (o : Option Post)
      → Triple Taken
          (elim o as (λ _. Exec (Unit {0})) [
            | none ↦ pure tt
            | some post ↦ edit_draft_card e post c
          ])
          Taken
          Taken
  card-Taken c none = Triple-pure Taken Taken Taken tt (λ db k. k)
  card-Taken c (some post) =
      Triple-Frames Taken Taken (λ db k. k) _ (edit_draft_card-Frames db-IsOutside e post c)

  released :
      (h : Option Text) (x : Exn)
      → Triple {A = Outcome} Claimed (do release_dedupe h; raise x) P Taken
  released h x =
      Triple-bind Claimed P Taken Claimed _ _ (release_dedupe-Claimed P a e i h)
        (λ _. Triple-raise Claimed P Taken x (Claimed-Taken P a e i))

  settle-Claimed :
      (c : SourceChannel) (h : Option Text) (r : Result ℕ)
      → Triple Claimed (settle e i c h r) P Taken
  unfolding settle
  settle-Claimed c h (err x) = released h x
  settle-Claimed c h (ok zero) = released h (no_message_id i)
  settle-Claimed c h (ok (suc m)) =
      Triple-bind Taken P Taken Claimed _ _ (mark_published-Claimed P a e i (suc m) h) λ _.
        Triple-bind Taken P Taken Taken get_db _ (Triple-get_db Taken Taken) λ db.
          Triple-bind Taken P Taken Taken _ _ (card-Taken c (get_post i db))
            λ _. Triple-pure Taken P Taken published (λ db k. k.kept)

  send_and_settle-Claimed :
      (c : SourceChannel) (h : Option Text) (text : Text) (refs : List MediaRef)
      → Triple Claimed (send_and_settle e i c h text refs) P Taken
  unfolding send_and_settle
  send_and_settle-Claimed c h text refs = record {
    at = λ w k.
        (settle-Claimed c h (send_spaced e text refs w).0).at (send_spaced e text refs w).1
          (subst Claimed (sym ((send_spaced-Frames db-IsOutside e text refs).at w)) k);
  }

  report_duplicate-Claimed : (h : Text) → Triple Claimed (report_duplicate i h) P Taken
  unfolding report_duplicate
  report_duplicate-Claimed h =
      Triple-bind P P Taken Claimed _ _ (mark_duplicate-Claimed P a e i h)
        (λ _. Triple-pure P P Taken duplicate (λ db k. k))

  publish_to-Claimed :
      (c : SourceChannel) (h : Option Text) (text : Text) (refs : List MediaRef)
      → Triple Claimed (publish_to e i c h text refs) P Taken
  unfolding publish_to
  publish_to-Claimed c h text refs =
      Triple-bind Claimed P Taken Claimed get_db _ (Triple-get_db Claimed Taken) λ db.
        Triple-if Claimed P Taken (truthy h && dedupe_exists (opt_or h []) db) _ _
          (report_duplicate-Claimed _)
          (Triple-bind Claimed P Taken Claimed _ _ (reserve_dedupe-Claimed P a e i h) λ reserved.
            Triple-if Claimed P Taken reserved _ _ (send_and_settle-Claimed c h text refs)
              (report_duplicate-Claimed _))

  with_channel-Claimed :
      (p : Post) (c : Option SourceChannel) → Triple Claimed (with_channel e i p c) P Taken
  unfolding with_channel
  with_channel-Claimed p none = Triple-pure Claimed P Taken no_channel (λ db k. k.kept)
  with_channel-Claimed p (some c) = publish_to-Claimed c p.dedupe_hash _ _

  -- The row that was read may be claimed.
  claim-Claimed :
      (p : Post) (w : World)
      → get_post i w.db ≡ some p
      → p.published_message_id ≡ none
      → is_open p.state ≡ true
      → P w.db
      → Ends P Taken (claim e i p w).0 (claim e i p w).1.db
  unfolding claim
  claim-Claimed p w found unsent open' k =
      (Triple-bind Claimed P Taken Claimed get_db _ (Triple-get_db Claimed Taken)
          (λ db. with_channel-Claimed p (get_channel p.source_channel_id db))).at
        (record w { db = update_post i (λ q. record q { state = PostState.publishing }) w.db })
        (Row-update P a i IsClaimed _ (same_key _ (λ q. refl)) w.db (λ q at. go q (same q at)) k)
    where
      same : (q : Post) → get_post i w.db ≡ some q → p ≡ q
      same q at = ground (arith, found, at)

      go :
          (q : Post)
          → p ≡ q
          → Life publisher (phase q) (record (phase q) { state = PostState.publishing })
            × ((PostState.publishing ≡ PostState.publishing) × (q.published_message_id ≡ none))
      go q is = (
        once (
            claimed refl (ap (λ (r : Post). is_open r.state) (sym is) ∙ open')
              (ap (λ (r : Post). r.published_message_id) (sym is) ∙ unsent) refl),
        (refl, ap (λ (r : Post). r.published_message_id) (sym is) ∙ unsent),
      )

  IsOpen-is_open : (s : PostState) → state_in s skip_states ≡ false → is_open s ≡ true
  IsOpen-is_open PostState.pending h = refl
  IsOpen-is_open PostState.approved h = refl
  IsOpen-is_open PostState.scheduled h = refl
  IsOpen-is_open PostState.published h = absurd (ground (arith, h))
  IsOpen-is_open PostState.rejected h = absurd (ground (arith, h))
  IsOpen-is_open PostState.publishing h = absurd (ground (arith, h))
  IsOpen-is_open PostState.publish_failed h = refl

  unsent : (o : Option ℕ) → is_some o ≡ false → o ≡ none
  unsent none h = refl
  unsent (some m) h = absurd (ground (arith, h))

  guarded-Taken :
      (p : Post) (w : World)
      → get_post i w.db ≡ some p
      → P w.db
      → Ends P Taken (guarded e i p w).0 (guarded e i p w).1.db
  unfolding guarded
  guarded-Taken p w found k =
      go (is_some p.published_message_id) (state_in p.state skip_states) refl refl
    where
      go :
          (b c : Bool)
          → is_some p.published_message_id ≡ b
          → state_in p.state skip_states ≡ c
          → let r =
              (if b then pure already_published else if c then pure (skip p.state) else claim e i p)
                w in
            Ends P Taken r.0 r.1.db
      go true c sent s = k
      go false true sent s = k
      go false false sent s =
          claim-Claimed p w found (unsent p.published_message_id sent) (IsOpen-is_open p.state s) k

  publish_core-Taken : Triple P (publish_core e i) P Taken
  unfolding publish_core
  publish_core-Taken = record { at = λ w k. go w k (get_post i w.db) refl }
    where
      go :
          (w : World)
          → P w.db
          → (o : Option Post) → get_post i w.db ≡ o
          → let r = elim o as (λ _. Exec Outcome) [
            | none ↦ pure not_found
            | some post ↦ guarded e i post
          ] in
            Ends P Taken (r w).0 (r w).1.db
      go w k none found = k
      go w k (some p) found = guarded-Taken p w found k

  pub publish-Keeps : Keeps P (publish e i)
  unfolding publish
  publish-Keeps = Keeps-Triple P _ (
      Triple-try P P Taken P _ _ publish_core-Taken λ x.
        Triple-bind P P P Taken _ _ (failure-Taken P a e i (e.show_exn x))
          (λ _. Triple-raise P P P x (λ db k. k)))
