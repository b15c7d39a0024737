-- ===== src/Bot/Publisher/Delivered.antt =====
-- The way of a text through the `publish` job where Telegram takes it.
use telegram_cms.Prelude.{
  inl, ℕ, suc, ◌+◌, Text, true, false, Option, some, List, [], ◌∷◌, ◌++◌, arith, ◌≡◌, refl, ap, ◌∙◌,
  truthy, text_or, codes, ◌⊎◌, find, ◌==◌, append_assoc,
}
use telegram_cms.Enums.{PostState}
use telegram_cms.Models.{Post, SourceChannel}
use telegram_cms.World.{
  Db, World, Call, Reply, delivered, send_message, caught, raise, ◌>>◌, Result, ok, err, get_post,
  get_channel,
}
use telegram_cms.Env.{Env}
use telegram_cms.Bot.Send.{sendable}
use telegram_cms.Bot.Publisher.{
  Outcome, on_publish_failure, published, settle, send_and_settle, publish_core, publish,
  reserve_dedupe, text_to_send,
}
use telegram_cms.Bot.Publisher.Ways.{publish_to-free, IsOpen, claimed, publish_core-claims}
use telegram_cms.Bot.Publisher.Stages.{reserve_dedupe-posts, get_post-update}
use telegram_cms.Bot.Publisher.Published.{published_post, settle-row}
use telegram_cms.Bot.Publisher.Answered.{
  is_answered, IsDone, send_spaced-text, settle-IsDone, reserve_dedupe-outside,
}

-- The job succeeded: the row `i`, which was `p`, has the message, and its text was the first thing sent.
pub record IsDelivered (e : Env) (i m : ℕ) (p : Post) (w : World) (r : Result Outcome × World)
    : Type 0 where
  pub answer : r.0 ≡ ok published
  pub row : (t : ℕ) × (get_post i r.1.db ≡ some (published_post p m t))
  pub calls :
      (cs : List Call) × (r.1.sent
        ≡ w.sent
          ++ (send_message e.destination_channel_id (text_or (text_to_send p) (codes " ")) ∷ cs))

-- The same, counted from a world in which nothing more was sent yet.
pub IsDelivered-from :
    (e : Env) (i m : ℕ) (p : Post) (w v : World) (x : Result Outcome × World)
    → v.sent ≡ w.sent
    → IsDelivered e i m p v x
    → IsDelivered e i m p w x
IsDelivered-from e i m p w v x same d = record {
  answer = d.answer;
  row = d.row;
  calls = (
    d.calls.0,
    d.calls.1
        ∙ ap
            (λ s.
              s
              ++ (send_message e.destination_channel_id (text_or (text_to_send p) (codes " "))
                  ∷ d.calls.0))
            same,
  );
}

module _ (e : Env) where
  module _ (i m : ℕ) (c : SourceChannel) (r : Reply) (rest : List Reply)
      (answered : is_answered r ≡ true) where
    sent_and_settled :
        (p q : Post) (h : Option Text) (w : World)
        → get_post i w.db ≡ some q
        → sendable e.media_max_size_default p.raw_media_refs ≡ []
        → w.replies ≡ delivered (suc m) ∷ r ∷ rest
        → (truthy h ≡ false) ⊎ (e.accepts_statement ≡ true)
        → published_post q m ≡ published_post p m
        → IsDelivered e i m p w (send_and_settle e i c h (text_to_send p) p.raw_media_refs w)
    unfolding send_and_settle
    sent_and_settled p q h w found plain answers may same =
        rw (send_spaced-text e (text_to_send p) p.raw_media_refs (suc m) (r ∷ rest) w plain answers)
          (record {
            answer = done.answer;
            row = (
              w'.now,
              settle-row e i c h m w' q found done.answer ∙ ap (λ f. some (f w'.now)) same,
            );
            calls = (done.calls.0, done.calls.1 ∙ append_assoc w.sent _ done.calls.0);
          })
      where
        w' : World
        w' = record w {
          now = w.now + e.publish_spacing;
          replies = r ∷ rest;
          sent =
              w.sent
              ++ (send_message e.destination_channel_id (text_or (text_to_send p) (codes " "))
                  ∷ []);
        }

        done : IsDone published w' (settle e i c h (ok (suc m)) w')
        done = settle-IsDone e i m c h r rest w' may refl answered

-- The post is open, its channel is there, no media of it is sent, and it has no hash.
pub record IsReady (e : Env) (p : Post) (db : Db) : Type 0 where
  pub opened : IsOpen p
  pub channel : (c : SourceChannel) × (get_channel p.source_channel_id db ≡ some c)
  pub plain : sendable e.media_max_size_default p.raw_media_refs ≡ []
  pub unhashed : truthy p.dedupe_hash ≡ false

-- The job of a post that is open and has no hash (it was not normalized yet), whose channel is there and of which no
-- media is sent, succeeds where Telegram takes its text, gives a message's id, which is not 0, and answers one call
-- more, if only with an error of its own: the row is published with this id, and the post's text was the first
-- thing sent to the destination channel.
pub publish-IsDelivered :
    (e : Env) (i m : ℕ) (w : World) (p : Post) (r : Reply) (rest : List Reply)
    → get_post i w.db ≡ some p
    → IsReady e p w.db
    → w.replies ≡ delivered (suc m) ∷ r ∷ rest
    → is_answered r ≡ true
    → IsDelivered e i m p w (publish e i w)
unfolding publish
publish-IsDelivered e i m w p r rest found ready answers answered =
    caught_none (publish_core e i w) (
      rw
        (
          publish_core-claims e i w p found ready.opened ready.channel.0 ready.channel.1,
          publish_to-free e i ready.channel.0 p.dedupe_hash (text_to_send p) p.raw_media_refs w'
              (ground (arith, ready.unhashed)),
        )
        sent)
  where
    w' : World
    w' = record w { db = claimed i w.db }

    reserved : World
    reserved = (reserve_dedupe p.dedupe_hash w').1

    outside : (reserved.sent ≡ w.sent) × (reserved.replies ≡ w.replies)
    outside = reserve_dedupe-outside e p.dedupe_hash w'

    sent : IsDelivered e i m p w (
        send_and_settle e i ready.channel.0 p.dedupe_hash
          (text_to_send p)
          p.raw_media_refs
          reserved)
    sent = IsDelivered-from e i m p w reserved _ outside.0 (
        sent_and_settled e i m ready.channel.0 r rest answered p
          (record p { state = PostState.publishing }) p.dedupe_hash reserved
          (ap (find (λ (q : Post). q.id == i)) ((reserve_dedupe-posts p.dedupe_hash).at w')
            ∙ get_post-update i _ w.db.posts p (λ q. refl) found)
          ready.plain (outside.1 ∙ answers) (inl ready.unhashed) refl)

    caught_none :
        (x : Result Outcome × World)
        → IsDelivered e i m p w x
        → IsDelivered e i m p w
            (caught x.0 (λ exc. do on_publish_failure e i (e.show_exn exc); raise exc) x.1)
    caught_none (ok a, v) d = d
    caught_none (err y, v) d = absurd (ground (arith, d.answer))
