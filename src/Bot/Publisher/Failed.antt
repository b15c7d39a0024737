-- ===== src/Bot/Publisher/Failed.antt =====
-- The failing runs of the `publish` job: content that was published before, a send that fails, and a
-- message that is sent and cannot be recorded.
use telegram_cms.Prelude.{
  ℕ, suc, true, false, none, some, [], arith, ◌≡◌, refl, ap, ◌∙◌, opt_or, find, ◌==◌, truthy, ◌&&◌,
}
use telegram_cms.Enums.{PostState}
use telegram_cms.Models.{Post, SourceChannel}
use telegram_cms.World.{Db, World, Exn, unmapped_instance, Result, ok, err, get_post, get_channel}
use telegram_cms.Env.{Env}
use telegram_cms.Bot.Publisher.{
  duplicate, settle, send_and_settle, publish_core, publish, mark_published, reserve_dedupe,
  report_duplicate, mark_duplicate, release_dedupe, text_to_send, has_hash,
}
use telegram_cms.Bot.Publisher.Ways.{
  is_reserved, publish_to-reserved, publish_to-free, IsOpen, claimed, publish_core-claims,
}
use telegram_cms.Bot.Publisher.Stages.{
  db-IsOutside, send_spaced-Frames, get_post-update, reserve_dedupe-posts, release_dedupe-posts,
  reserve_dedupe-channels,
}
use telegram_cms.Bot.Publisher.Raises.{
  sending, with_state, reserve_dedupe-is_reserved, release_dedupe-is_reserved, release_dedupe-ok,
  publish-HasFailed,
}

module _ (e : Env) (i : ℕ) (w : World) (p : Post) (c : SourceChannel)
    (found : get_post i w.db ≡ some p) (opened : IsOpen p)
    (has : get_channel p.source_channel_id w.db ≡ some c) where
  publish_core-settle :
      is_reserved p.dedupe_hash w.db ≡ false
      → publish_core e i w ≡ settle e i c p.dedupe_hash (sending e i p w).0 (sending e i p w).1
  unfolding send_and_settle
  publish_core-settle free =
      publish_core-claims e i w p found opened c has
      ∙ publish_to-free e i c p.dedupe_hash (text_to_send p) p.raw_media_refs
          (record w { db = claimed i w.db }) free

  -- Content with a reservation is not sent again: the job reports a duplicate, the post is rejected and
  -- nothing else in its row changes, and no call of Telegram is made.
  pub publish-reserved :
      is_reserved p.dedupe_hash w.db ≡ true
      → ((publish e i w).0 ≡ ok duplicate)
        × (get_post i (publish e i w).1.db ≡ some (with_state p PostState.rejected))
        × ((publish e i w).1.sent ≡ w.sent)
        × ((publish e i w).1.replies ≡ w.replies)
  unfolding publish report_duplicate mark_duplicate
  publish-reserved taken =
      let core =
        publish_core-claims e i w p found opened c has
        ∙ publish_to-reserved e i c p.dedupe_hash (text_to_send p) p.raw_media_refs
            (record w { db = claimed i w.db }) taken in
      let mine =
        get_post-update i (λ q. with_state q PostState.publishing) w.db.posts p (λ q. refl) found in
      let row =
        get_post-update i (λ q. with_state q PostState.rejected) (claimed i w.db).posts
          (with_state p PostState.publishing) (λ q. refl) mine in
      rw (core, publish) (ground (arith, mine, row))

  -- The post's row, the reservation and the channels when the send is over.
  after_sending-post : get_post i (sending e i p w).1.db ≡ some (with_state p PostState.publishing)
  after_sending-post =
      let v = record w { db = claimed i w.db } in
      ap (get_post i)
        ((send_spaced-Frames db-IsOutside e _ _).at (reserve_dedupe p.dedupe_hash v).1)
      ∙ ap (find (λ (q : Post). q.id == i)) ((reserve_dedupe-posts p.dedupe_hash).at v)
      ∙ get_post-update i _ w.db.posts p (λ q. refl) found

  after_sending-is_reserved :
      truthy p.dedupe_hash ≡ true → is_reserved p.dedupe_hash (sending e i p w).1.db ≡ true
  after_sending-is_reserved h =
      let v = record w { db = claimed i w.db } in
      ap (is_reserved p.dedupe_hash)
        ((send_spaced-Frames db-IsOutside e _ _).at (reserve_dedupe p.dedupe_hash v).1)
      ∙ reserve_dedupe-is_reserved p.dedupe_hash v h

  -- A send that fails releases the reservation before the error is raised again.
  settle_raises :
      (x : Exn) (w' : World)
      → settle e i c p.dedupe_hash (err x) w' ≡ (err x, (release_dedupe p.dedupe_hash w').1)
  unfolding settle
  settle_raises x w' = ground (arith, release_dedupe-ok p.dedupe_hash w')

  -- Where the send of unpublished content fails, the job raises, the post's state is publish_failed and
  -- nothing else in its row changes, and its hash is not reserved.
  pub publish-send_fails :
      is_reserved p.dedupe_hash w.db ≡ false
      → (x : Exn) → (sending e i p w).0 ≡ err x
      → ((y : Exn) × ((publish e i w).0 ≡ err y))
        × (get_post i (publish e i w).1.db ≡ some (with_state p PostState.publish_failed))
        × (is_reserved p.dedupe_hash (publish e i w).1.db ≡ false)
  publish-send_fails free x fails =
      let w' = (sending e i p w).1 in
      let v = (release_dedupe p.dedupe_hash w').1 in
      let core : publish_core e i w ≡ (err x, v) =
        publish_core-settle free
        ∙ ap (λ (r : Result ℕ). settle e i c p.dedupe_hash r w') fails
        ∙ settle_raises x w' in
      let failed = publish-HasFailed e i w v x (with_state p PostState.publishing) core (
        ap (find (λ (q : Post). q.id == i)) ((release_dedupe-posts p.dedupe_hash).at w')
        ∙ after_sending-post) in
      (
        failed.raised,
        failed.row,
        ap (λ ds. truthy p.dedupe_hash && has_hash (opt_or p.dedupe_hash []) ds) failed.hashes
            ∙ release_dedupe-is_reserved p.dedupe_hash w',
      )

  module _ (refuses : e.accepts_statement ≡ false) (hashed : truthy p.dedupe_hash ≡ true)
      (free : is_reserved p.dedupe_hash w.db ≡ false) (m : ℕ)
      (sent : (sending e i p w).0 ≡ ok (suc m)) where
    unrecorded-core : publish_core e i w ≡ (err unmapped_instance, (sending e i p w).1)
    unfolding settle mark_published
    unrecorded-core =
        publish_core-settle free ∙ ground (arith, sent, refuses, hashed, after_sending-post)

    -- Where the session takes no statement, a post with a hash whose send succeeds is not recorded as
    -- published: the job raises, the post's state is publish_failed and nothing else in its row changes,
    -- and its hash stays reserved.
    pub publish_unrecorded :
        ((y : Exn) × ((publish e i w).0 ≡ err y))
        × (get_post i (publish e i w).1.db ≡ some (with_state p PostState.publish_failed))
        × (is_reserved p.dedupe_hash (publish e i w).1.db ≡ true)
    publish_unrecorded =
        let failed =
          publish-HasFailed e i w (sending e i p w).1 unmapped_instance
            (with_state p PostState.publishing) unrecorded-core after_sending-post in
        (
          failed.raised,
          failed.row,
          ap (λ ds. truthy p.dedupe_hash && has_hash (opt_or p.dedupe_hash []) ds) failed.hashes
              ∙ after_sending-is_reserved hashed,
        )

    channels_kept : (publish e i w).1.db.channels ≡ w.db.channels
    channels_kept =
        let v = record w { db = claimed i w.db } in
        (publish-HasFailed e i w (sending e i p w).1 unmapped_instance
          (with_state p PostState.publishing) unrecorded-core after_sending-post).channels
        ∙ ap (λ (d : Db). d.channels)
            ((send_spaced-Frames db-IsOutside e _ _).at (reserve_dedupe p.dedupe_hash v).1)
        ∙ (reserve_dedupe-channels p.dedupe_hash).at v

publish_retry-unrecorded :
    (e : Env) (i : ℕ) (w : World) (p : Post) (c : SourceChannel)
    → get_post i w.db ≡ some (with_state p PostState.publish_failed)
    → p.published_message_id ≡ none
    → get_channel p.source_channel_id w.db ≡ some c
    → is_reserved p.dedupe_hash w.db ≡ true
    → ((publish e i w).0 ≡ ok duplicate)
      × (get_post i (publish e i w).1.db ≡ some (with_state p PostState.rejected))
      × ((publish e i w).1.sent ≡ w.sent)
      × ((publish e i w).1.replies ≡ w.replies)
publish_retry-unrecorded e i w p c found unsent has taken =
    publish-reserved e i w (with_state p PostState.publish_failed) c found (unsent, refl) has taken

module _ (e : Env) (i : ℕ) (w : World) (p : Post) (c : SourceChannel)
    (found : get_post i w.db ≡ some p) (opened : IsOpen p)
    (has : get_channel p.source_channel_id w.db ≡ some c) (refuses : e.accepts_statement ≡ false)
    (hashed : truthy p.dedupe_hash ≡ true) (free : is_reserved p.dedupe_hash w.db ≡ false) (m : ℕ)
    (sent : (sending e i p w).0 ≡ ok (suc m)) where
  -- Where the session takes no statement, the retry of a post with a hash that was sent once reports a
  -- duplicate and rejects the post: it makes no call of Telegram, and the row never has the message.
  pub publish_twice-unrecorded :
      let w' = (publish e i w).1 in
      ((publish e i w').0 ≡ ok duplicate)
      × (get_post i (publish e i w').1.db ≡ some (with_state p PostState.rejected))
      × ((publish e i w').1.sent ≡ w'.sent)
      × ((publish e i w').1.replies ≡ w'.replies)
  publish_twice-unrecorded =
      let once = publish_unrecorded e i w p c found opened has refuses hashed free m sent in
      publish_retry-unrecorded e i (publish e i w).1 p c once.1 opened.0
        (ap (find (λ (d : SourceChannel). d.id == p.source_channel_id))
            (channels_kept e i w p c found opened has refuses hashed free m sent)
          ∙ has)
        once.2
