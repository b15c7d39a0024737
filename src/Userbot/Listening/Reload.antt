-- ===== src/Userbot/Listening/Reload.antt =====
-- Which chats are listened to after a reload.
use telegram_cms.Prelude.{
  ℤ, int_eq, int_eq→eq, Bool, not, ◌&&◌, List, [], ◌∷◌, any, any-append, keep, arith, ◌≡◌,
  if◌then◌else◌,
}
use telegram_cms.Models.{SourceChannel}
use telegram_cms.Userbot.Listening.{ChannelMap, has_chat, has_channel, add_channels, reload}

kept :
    (k : ℤ) (cs : List SourceChannel) (current : ChannelMap)
    → has_chat k (keep (λ (r : ℤ × SourceChannel). has_channel r.0 cs) current)
      ≡ (has_channel k cs && has_chat k current)
kept k cs [] = ground arith
kept k cs (r ∷ rest) = ground (arith, kept k cs rest, int_eq→eq r.0 k)

added :
    (k : ℤ) (resolves : SourceChannel → Bool) (current : ChannelMap) (cs : List SourceChannel)
    → has_chat k (add_channels resolves current cs) ≡ (
        not (has_chat k current)
        && any (λ (c : SourceChannel). int_eq c.telegram_channel_id k && resolves c) cs)
unfolding add_channels
added k resolves current [] = ground arith
added k resolves current (c ∷ cs) =
    ground (arith, added k resolves current cs, int_eq→eq c.telegram_channel_id k)

-- After a reload a chat is listened to exactly if it was before and its channel is still enabled, or if it was
-- not and it has an enabled channel whose entity resolves.
pub has_chat-reload :
    (k : ℤ) (resolves : SourceChannel → Bool) (cs : List SourceChannel) (current : ChannelMap)
    → has_chat k (reload resolves cs current) ≡ (
        if has_chat k current
        then has_channel k cs
        else any (λ (c : SourceChannel). int_eq c.telegram_channel_id k && resolves c) cs)
unfolding reload
has_chat-reload k resolves cs current = ground (
  arith,
  any-append (λ (r : ℤ × SourceChannel). int_eq r.0 k)
      (keep (λ (r : ℤ × SourceChannel). has_channel r.0 cs) current)
      (add_channels resolves current cs),
  kept k cs current,
  added k resolves current cs,
)
