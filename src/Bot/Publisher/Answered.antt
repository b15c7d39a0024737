-- ===== src/Bot/Publisher/Answered.antt =====
-- The stages of the `publish` job of a text, where Telegram answers their calls.
use telegram_cms.Prelude.{
  ℕ, zero, suc, ◌+◌, Text, Bool, true, false, Option, none, some, List, [], ◌∷◌, ◌++◌, arith, ◌≡◌,
  refl, ap, sym, if◌then◌else◌, ◌∙◌, truthy, opt_or, text_or, codes, inl, inr, ◌⊎◌, append-nil,
}
use telegram_cms.Models.{Post, SourceChannel, MediaRef}
use telegram_cms.World.{
  World, Call, Reply, delivered, refused, send_message, is_telegram_error, unmapped_instance, pure,
  commit, continue, ◌>>=◌, ◌>>◌, get_db, Result, ok, err, get_post, bot_call,
}
use telegram_cms.Env.{Env}
use telegram_cms.Bot.Send.{sendable, send_post}
use telegram_cms.Bot.Publisher.{
  published, insert_hash, published_row, settle, mark_published, send_spaced, edit_card,
  edit_draft_card, best_effort, reserve_dedupe,
}

-- Telegram answered the call, if only with a refusal.
abbrev pub is_answered : Reply → Bool
is_answered (delivered m) = true
is_answered (refused x) = is_telegram_error x

-- What a stage leaves as the answer, and the calls that it made.
pub record IsDone {A : Type 0} (a : A) (w : World) (r : Result A × World) : Type 0 where
  pub answer : r.0 ≡ ok a
  pub calls : (cs : List Call) × (r.1.sent ≡ w.sent ++ cs)

module _ (e : Env) where
  pub send_spaced-text :
      (text : Text) (refs : List MediaRef) (m : ℕ) (rest : List Reply) (w : World)
      → sendable e.media_max_size_default refs ≡ []
      → w.replies ≡ delivered m ∷ rest
      → send_spaced e text refs w ≡ (
        ok m,
        record w {
          now = w.now + e.publish_spacing;
          replies = rest;
          sent = w.sent ++ (send_message e.destination_channel_id (text_or text (codes " ")) ∷ []);
        },
      )
  unfolding send_spaced send_post bot_call
  send_spaced-text text refs m rest w plain answers = rw (plain, answers) refl

  edit_card-IsDone :
      (p : Post) (c : SourceChannel) (d : ℕ) (r : Reply) (rest : List Reply) (w : World)
      → w.replies ≡ r ∷ rest
      → is_answered r ≡ true
      → IsDone tt w (edit_card e p c d w)
  unfolding edit_card best_effort bot_call
  edit_card-IsDone p c zero r rest w answers h = record {
    answer = refl;
    calls = ([], sym (append-nil w.sent));
  }
  edit_card-IsDone p c (suc d) (delivered m) rest w answers h =
      rw answers (record { answer = refl; calls = (_, refl) })
  edit_card-IsDone p c (suc d) (refused x) rest w answers h =
      rw (answers, h) (record { answer = refl; calls = ([], sym (append-nil w.sent)) })

  edit_draft_card-IsDone :
      (p : Post) (c : SourceChannel) (r : Reply) (rest : List Reply) (w : World)
      → w.replies ≡ r ∷ rest
      → is_answered r ≡ true
      → IsDone tt w (edit_draft_card e p c w)
  unfolding edit_draft_card
  edit_draft_card-IsDone p c r rest w answers h = go p.draft_message_id
    where
      go :
          (o : Option ℕ)
          → IsDone tt w (
              elim o as (λ _. World → Result (Unit {0}) × World) [
                | none ↦ pure tt
                | some d ↦ edit_card e p c d
              ]
                w)
      go none = record { answer = refl; calls = ([], sym (append-nil w.sent)) }
      go (some d) = edit_card-IsDone p c d r rest w answers h

  -- The record of a message asks nothing of Telegram.
  record IsQuiet (w : World) (r : Result (Unit {0}) × World) : Type 0 where
    pub answer : r.0 ≡ ok tt
    pub sent : r.1.sent ≡ w.sent
    pub replies : r.1.replies ≡ w.replies

  mark_published-IsQuiet :
      (i m : ℕ) (h : Option Text) (w : World)
      → (truthy h ≡ false) ⊎ (e.accepts_statement ≡ true)
      → IsQuiet w (mark_published e i m h w)
  unfolding mark_published
  mark_published-IsQuiet i m h w may = go (get_post i w.db) (truthy h) e.accepts_statement may
    where
      go :
          (o : Option Post) (b c : Bool)
          → (b ≡ false) ⊎ (c ≡ true)
          → IsQuiet w (elim o as (λ _. Result (Unit {0}) × World) [
            | none ↦ (ok tt, w)
            | some post ↦
                if b
                then (if c
                    then commit
                        (λ db. (insert_hash (opt_or h []) w.now (published_row e i m w.now db)).0)
                        w
                    else (err unmapped_instance, w))
                else commit (published_row e i m w.now) w
          ])
      go none b c may = record { answer = refl; sent = refl; replies = refl }
      go (some post) false c may = record { answer = refl; sent = refl; replies = refl }
      go (some post) true true may = record { answer = refl; sent = refl; replies = refl }
      go (some post) true false (inl bad) = absurd (ground (arith, bad))
      go (some post) true false (inr bad) = absurd (ground (arith, bad))

  pub settle-IsDone :
      (i m : ℕ) (c : SourceChannel) (h : Option Text) (r : Reply) (rest : List Reply) (w : World)
      → (truthy h ≡ false) ⊎ (e.accepts_statement ≡ true)
      → w.replies ≡ r ∷ rest
      → is_answered r ≡ true
      → IsDone published w (settle e i c h (ok (suc m)) w)
  unfolding settle
  settle-IsDone i m c h r rest w may answers answered =
      let quiet = mark_published-IsQuiet i (suc m) h w may in
      carded (mark_published e i (suc m) h w) quiet.answer quiet.sent (quiet.replies ∙ answers)
    where
      card : Option Post → World → Result (Unit {0}) × World
      card o = elim o as (λ _. World → Result (Unit {0}) × World) [
        | none ↦ pure tt
        | some post ↦ edit_draft_card e post c
      ]

      reported :
          (x : Result (Unit {0}) × World) (v : World)
          → v.sent ≡ w.sent
          → IsDone tt v x
          → IsDone published w (continue x.0 (λ _. pure published) x.1)
      reported x v same d =
          rw d.answer (record {
            answer = refl;
            calls = (d.calls.0, d.calls.1 ∙ ap (λ s. s ++ d.calls.0) same);
          })

      card-IsDone : (o : Option Post) (v : World) → v.replies ≡ r ∷ rest → IsDone tt v (card o v)
      card-IsDone none v at = record { answer = refl; calls = ([], sym (append-nil v.sent)) }
      card-IsDone (some post) v at = edit_draft_card-IsDone post c r rest v at answered

      carded :
          (x : Result (Unit {0}) × World)
          → x.0 ≡ ok tt
          → x.1.sent ≡ w.sent
          → x.1.replies ≡ r ∷ rest
          → IsDone published w (
              continue x.0
                (λ _. do
                  db ← get_db
                  elim (get_post i db) [ none ↦ pure tt | some post ↦ edit_draft_card e post c ]
                  pure published)
                x.1)
      carded (ok u, v) done same at =
          reported (card (get_post i v.db) v) v same (card-IsDone (get_post i v.db) v at)
      carded (err y, v) done same at = absurd (ground (arith, done))

  pub reserve_dedupe-outside :
      (h : Option Text) (w : World)
      → ((reserve_dedupe h w).1.sent ≡ w.sent) × ((reserve_dedupe h w).1.replies ≡ w.replies)
  unfolding reserve_dedupe
  reserve_dedupe-outside none w = (refl, refl)
  reserve_dedupe-outside (some []) w = (refl, refl)
  reserve_dedupe-outside (some (c ∷ h)) w = (refl, refl)
