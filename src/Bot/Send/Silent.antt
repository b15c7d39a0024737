-- ===== src/Bot/Send/Silent.antt =====
-- Sending touches Telegram and the clock: it leaves the database, the queues and every other view
-- that does not look at those two.
use telegram_cms.Prelude.{ℕ, ℤ, Text, Option, none, some, List, [], ◌∷◌, ◌++◌, ◌+◌, ◌≡◌, refl}
use telegram_cms.Models.{MediaRef}
use telegram_cms.World.{
  World, Call, Reply, delivered, refused, bot_call, answer, sleep, file_exists,
}
use telegram_cms.World.Frames.{Frames, Frames-bind, Frames-pure, Frames-if}
use telegram_cms.Bot.Send.{
  send_group, send_extra, send_long, send_with, send_files, send_post, has_text, caption_for,
}

-- `view` looks neither at Telegram nor at the clock.
pub record IsOutside {V : Type 0} (view : World → V) : Type 0 where
  pub call :
      (w : World) (rs : List Reply) (sent : List Call)
      → view (record w { replies = rs; sent = sent }) ≡ view w
  pub reply : (w : World) (rs : List Reply) → view (record w { replies = rs }) ≡ view w
  pub clock : (w : World) (t : ℕ) → view (record w { now = t }) ≡ view w

module _ {V : Type 0} {view : World → V} (o : IsOutside view) where
  answer-Frames : (rs : List Reply) (c : Call) → Frames view (answer rs c)
  answer-Frames [] c = record { at = λ w. refl }
  answer-Frames (delivered m ∷ rs) c = record { at = λ w. o.call w rs (w.sent ++ (c ∷ [])) }
  answer-Frames (refused x ∷ rs) c = record { at = λ w. o.reply w rs }

  pub bot_call-Frames : (c : Call) → Frames view (bot_call c)
  unfolding bot_call
  bot_call-Frames c = record { at = λ w. (answer-Frames w.replies c).at w }

  pub sleep-Frames : (t : ℕ) → Frames view (sleep t)
  sleep-Frames t = record { at = λ w. o.clock w (w.now + t) }

  send_group-Frames : (chat : ℤ) (ms : List MediaRef) → Frames view (send_group chat ms)
  unfolding send_group
  send_group-Frames chat [] = Frames-pure view tt
  send_group-Frames chat (m ∷ ms) =
      Frames-bind view _ _ (bot_call-Frames _) (λ _. Frames-pure view tt)

  send_extra-Frames : (chat : ℤ) (extra : List MediaRef) → Frames view (send_extra chat extra)
  unfolding send_extra
  send_extra-Frames chat extra = record { at = λ w. (send_group-Frames chat _).at w }

  send_long-Frames :
      (chat : ℤ) (text : Text) (c : Option Text) → Frames view (send_long chat text c)
  unfolding send_long
  send_long-Frames chat text none =
      Frames-if view (has_text text) _ _
        (Frames-bind view _ _ (bot_call-Frames _) (λ _. Frames-pure view tt)) (Frames-pure view tt)
  send_long-Frames chat text (some c) = Frames-pure view tt

  send_with-Frames :
      (chat : ℤ) (text : Text) (m : MediaRef) (ms : List MediaRef)
      → Frames view (send_with chat text m ms)
  unfolding send_with
  send_with-Frames chat text m ms = Frames-bind view _ _ (bot_call-Frames _) λ i.
      Frames-bind view _ _ (send_extra-Frames chat ms) λ _.
        Frames-bind view _ _ (send_long-Frames chat text (caption_for text)) λ _. Frames-pure view i

  send_files-Frames :
      (chat : ℤ) (text : Text) (refs : List MediaRef) → Frames view (send_files chat text refs)
  unfolding send_files
  send_files-Frames chat text [] = record { at = λ w. (bot_call-Frames _).at w }
  send_files-Frames chat text (m ∷ ms) = record {
    at = λ w.
        (Frames-if view (file_exists m.file w) _ _ (send_with-Frames chat text m ms)
            (bot_call-Frames _)).at
          w;
  }

  pub send_post-Frames :
      (max_size : ℕ) (chat : ℤ) (text : Text) (refs : List MediaRef)
      → Frames view (send_post max_size chat text refs)
  unfolding send_post
  send_post-Frames max_size chat text refs = send_files-Frames chat text _
