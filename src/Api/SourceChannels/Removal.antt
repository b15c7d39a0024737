-- ===== src/Api/SourceChannels/Removal.antt =====
-- What the deletion of a channel takes with it, and when it is refused.
use telegram_cms.Prelude.{
  ℕ, Bool, true, false, not, none, Option, some, List, [], ◌∷◌, any, keep, All, arith, ◌≡◌,
  find-keep-not, refl, ◌==◌, ◌⊎◌, inl, inr, if◌then◌else◌,
}
use telegram_cms.Enums.{PostState, state_in}
use telegram_cms.Models.{Post, SourceChannel}
use telegram_cms.World.{Db, Result, ok, err, http, get_channel}
use telegram_cms.Api.SourceChannels.{delete_channel, is_active, terminal_states, without_channel}

-- A post of another channel, or one that is published or rejected.
abbrev pub MayGo : ℕ → Post → Type 0
MayGo i p =
    ((p.source_channel_id == i) ≡ false)
    ⊎ (p.state ≡ PostState.published)
    ⊎ (p.state ≡ PostState.rejected)

-- What the request answers, and why.
pub data Deletion (i : ℕ) (db : Db) : Result Db → Type 0 where
  unknown : get_channel i db ≡ none → Deletion i db (err (http 404 "source channel not found"))
  held : ¬ All (MayGo i) db.posts → Deletion i db (err (http 409 "channel has active posts"))
  gone :
      (db' : Db)
      → All (MayGo i) db.posts
      → db'.posts ≡ keep (λ (p : Post). not (p.source_channel_id == i)) db.posts
      → get_channel i db' ≡ none
      → Deletion i db (ok db')

terminal :
    (s : PostState)
    → state_in s terminal_states ≡ true
    → (s ≡ PostState.published) ⊎ (s ≡ PostState.rejected)
terminal PostState.published h = inl refl
terminal PostState.rejected h = inr refl
terminal PostState.pending h = absurd (ground (arith, h))
terminal PostState.approved h = absurd (ground (arith, h))
terminal PostState.scheduled h = absurd (ground (arith, h))
terminal PostState.publishing h = absurd (ground (arith, h))
terminal PostState.publish_failed h = absurd (ground (arith, h))

All-MayGo : (i : ℕ) (ps : List Post) → any (is_active i) ps ≡ false → All (MayGo i) ps
All-MayGo i [] h = tt
All-MayGo i (p ∷ ps) h =
    (may_go (p.source_channel_id == i) refl, All-MayGo i ps (ground (arith, h)))
  where
    may_go : (b : Bool) → (p.source_channel_id == i) ≡ b → MayGo i p
    may_go true same = inr (terminal p.state (ground (arith, h, same)))
    may_go false other = inl other

MayGo-is_active : (i : ℕ) (p : Post) → MayGo i p → is_active i p ≡ false
MayGo-is_active i p (inl other) = ground (arith, other)
MayGo-is_active i p (inr (inl s)) = ground (arith, s)
MayGo-is_active i p (inr (inr s)) = ground (arith, s)

any-MayGo : (i : ℕ) (ps : List Post) → All (MayGo i) ps → any (is_active i) ps ≡ false
any-MayGo i [] h = refl
any-MayGo i (p ∷ ps) h = ground (arith, MayGo-is_active i p h.0, any-MayGo i ps h.1)

pub delete_channel_lem : (i : ℕ) (db : Db) → Deletion i db (delete_channel i db)
unfolding delete_channel
delete_channel_lem i db = go (get_channel i db) refl (any (is_active i) db.posts) refl
  where
    go :
        (o : Option SourceChannel)
        → get_channel i db ≡ o
        → (b : Bool) → any (is_active i) db.posts ≡ b
        → Deletion i db (elim o as (λ _. Result Db) [
          | none ↦ err (http 404 "source channel not found")
          | some c ↦
              if b then err (http 409 "channel has active posts") else ok (without_channel i db)
        ])
    go none none_found b e = unknown none_found
    go (some c) found true e = held (λ may. absurd (ground (arith, any-MayGo i db.posts may, e)))
    go (some c) found false e =
        gone (without_channel i db) (All-MayGo i db.posts e) refl
          (find-keep-not (λ (c : SourceChannel). c.id == i) db.channels)
