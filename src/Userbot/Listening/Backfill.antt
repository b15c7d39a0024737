-- ===== src/Userbot/Listening/Backfill.antt =====
-- What a backfill of userbot/main.py ingests.
use telegram_cms.Prelude.{
  ℕ, true, List, [], ◌∷◌, All, map-All, arith, ◌≡◌, refl, ◌∙◌, sym, subst, inl, inr, Bool-cases,
  is_some, any, any-append, ◌≤◌,
}
use telegram_cms.Models.{SourceChannel, Post}
use telegram_cms.World.{World, Exn, flood_wait, ok, Result, get_channel}
use telegram_cms.World.Frames.{Frames, try_discard, try_discard-ok}
use telegram_cms.Env.{Env}
use telegram_cms.Userbot.Media.{Message, Client}
use telegram_cms.Userbot.Ingest.{
  ingest_message, is_refused, is_message, new_post, set_media, greatest_id,
  last_ingested_message_id,
}
use telegram_cms.Userbot.Ingest.Rows.{
  ingest_message-Keeps, ingest_message-has_message, has_message, set_media-has_message,
}
use telegram_cms.Userbot.Listening.{try_ingest, skip_message, backfill_all, backfill}

module _ (e : Env) (c : SourceChannel) where
  -- A row that is there stays there.
  ingest_message-stays :
      (b : ℕ) (m : Message) (client : Client) (w : World)
      → has_message c.id b w.db ≡ true
      → has_message c.id b (ingest_message e client m c w).1.db ≡ true
  ingest_message-stays b m client w h =
      ingest_message-Keeps (λ db. has_message c.id b db ≡ true) e client m c w h
        (λ _. ground (
          arith,
          any-append (is_message c.id b) w.db.posts (new_post w.db.sequence c.id m w.now ∷ []),
        ))
        (λ ref now db k. set_media-has_message c.id b w.db.sequence ref now db ∙ k)

  channel_stays :
      (m : Message) (client : Client) (w : World)
      → is_some (get_channel c.id w.db) ≡ true
      → is_some (get_channel c.id (ingest_message e client m c w).1.db) ≡ true
  unfolding set_media
  channel_stays m client w h =
      ingest_message-Keeps (λ db. is_some (get_channel c.id db) ≡ true) e client m c w h (λ _. h)
        (λ ref now db k. k)

  ingested :
      (m : Message) (client : Client) (w : World)
      → is_some (get_channel c.id w.db) ≡ true
      → has_message c.id m.id (ingest_message e client m c w).1.db ≡ true
  unfolding is_refused
  ingested m client w there = elim (Bool-cases (is_refused c.id m.id w.db)) [
    | inl old ↦ ingest_message-stays m.id m client w (before old)
    | inr new ↦ ingest_message-has_message e client m c w new
  ]
    where
      before : is_refused c.id m.id w.db ≡ true → has_message c.id m.id w.db ≡ true
      before old = ground (arith, old, there)

  skip_message-db : (x : Exn) → Frames (λ (w : World). w.db) (skip_message x)
  unfolding skip_message
  skip_message-db (flood_wait s) = record { at = λ w. refl }
  skip_message-db _ = record { at = λ w. refl }

  try_ingest-db :
      (m : Message) (client : Client) (w : World)
      → (try_ingest e c client m skip_message w).1.db ≡ (ingest_message e client m c w).1.db
  unfolding try_ingest
  try_ingest-db m client w =
      try_discard (λ (v : World). v.db) (ingest_message e client m c) skip_message w skip_message-db

  skip_message-ok : (x : Exn) (v : World) → (skip_message x v).0 ≡ ok tt
  unfolding skip_message
  skip_message-ok (flood_wait s) v = refl
  skip_message-ok _ v = refl

  try_ingest-ok :
      (m : Message) (client : Client) (w : World)
      → (try_ingest e c client m skip_message w).0 ≡ ok tt
  unfolding try_ingest
  try_ingest-ok m client w =
      try_discard-ok (ingest_message e client m c) skip_message w skip_message-ok

  -- After one message the backfill goes on with the next, whatever happened.
  backfill_all-cons :
      (m : Message) (client : Client) (rest : List (Message × Client)) (w : World)
      → backfill_all e c ((m, client) ∷ rest) w
        ≡ backfill_all e c rest (try_ingest e c client m skip_message w).1
  unfolding backfill_all
  backfill_all-cons m client rest w = rw (try_ingest-ok m client w)

  backfill_all-stays :
      (b : ℕ) (ms : List (Message × Client)) (w : World)
      → has_message c.id b w.db ≡ true
      → has_message c.id b (backfill_all e c ms w).1.db ≡ true
  backfill_all-stays b [] w h = unfold backfill_all in h
  backfill_all-stays b ((m, client) ∷ rest) w h = rw (backfill_all-cons m client rest w) (
      backfill_all-stays b rest (try_ingest e c client m skip_message w).1
        (rw (try_ingest-db m client w) (ingest_message-stays b m client w h)))

  backfill_all-ingests :
      (ms : List (Message × Client)) (w : World)
      → is_some (get_channel c.id w.db) ≡ true
      → All
          (λ (r : Message × Client). has_message c.id r.0.id (backfill_all e c ms w).1.db ≡ true)
          ms
  backfill_all-ingests [] w there = tt
  backfill_all-ingests ((m, client) ∷ rest) w there =
      let w' = (try_ingest e c client m skip_message w).1 in
      subst
        (λ (o : Result (Unit {0}) × World).
          All (λ (r : Message × Client). has_message c.id r.0.id o.1.db ≡ true)
            ((m, client) ∷ rest))
        (sym (backfill_all-cons m client rest w))
        (
          backfill_all-stays m.id rest w'
              (rw (try_ingest-db m client w) (ingested m client w there)),
          backfill_all-ingests rest w'
              (rw (try_ingest-db m client w) (channel_stays m client w there)),
        )

greatest_id-le : (a b : ℕ) (ps : List Post) → any (is_message a b) ps ≡ true → b ≤ greatest_id a ps
greatest_id-le a b [] h = ground (arith, h)
greatest_id-le a b (p ∷ ps) h = ground (arith, h, greatest_id-le a b ps)

-- Where the channel is there, each message that the client yields to a backfill has its row after it, whatever
-- its download or its job did, and the next backfill of the channel asks for later messages than it only.
pub backfill_lem :
    (e : Env) (c : SourceChannel) (messages : ℕ → List (Message × Client)) (w : World)
    → is_some (get_channel c.id w.db) ≡ true
    → let w' = (backfill e c messages w).1 in
      All
        (λ (r : Message × Client).
          (has_message c.id r.0.id w'.db ≡ true) × (r.0.id ≤ last_ingested_message_id c w'.db))
        (messages (last_ingested_message_id c w.db))
unfolding backfill last_ingested_message_id
backfill_lem e c messages w there =
    map-All _ _ (λ r h. (h, greatest_id-le c.id r.0.id _ h)) _
      (backfill_all-ingests e c (messages (last_ingested_message_id c w.db)) w there)
