-- ===== src/World/Keyed.antt =====
-- The keys of the table of posts: its ids, and the pairs of a channel and a message. Which writes keep them.
use telegram_cms.Prelude.{
  ℕ, ◌<◌, Bool, true, false, not, ◌&&◌, List, [], ◌∷◌, ◌++◌, any, all, All, modify, modify-All,
  arith, ◌≡◌, refl, ◌∙◌, ◌==◌,
}
use telegram_cms.Models.{Post}
use telegram_cms.World.{Db, update_post}

-- The columns of a unique key.
abbrev pub has_key : ℕ → ℕ → Post → Bool
has_key channel_id message_id p =
    (p.source_channel_id == channel_id) && (p.source_message_id == message_id)

abbrev pub differ : Post → Post → Bool
differ p q = not (p.id == q.id) && not (has_key p.source_channel_id p.source_message_id q)

-- No two rows have the same id, and no two have the same channel and message.
abbrev pub are_keyed : List Post → Bool
are_keyed [] = true
are_keyed (p ∷ ps) = all (differ p) ps && are_keyed ps

pub record IsKeyed (db : Db) : Type 0 where
  pub keys : are_keyed db.posts ≡ true
  pub made : All (λ (p : Post). p.id < db.sequence) db.posts

pub are_keyed-append :
    (ps : List Post) (x : Post)
    → are_keyed (ps ++ (x ∷ [])) ≡ (are_keyed ps && all (λ p. differ p x) ps)
are_keyed-append [] x = refl
are_keyed-append (p ∷ ps) x = ground (arith, are_keyed-append ps x, all-append p ps)
  where
    all-append :
        (p : Post) (qs : List Post)
        → all (differ p) (qs ++ (x ∷ [])) ≡ (all (differ p) qs && differ p x)
    all-append p [] = ground arith
    all-append p (q ∷ qs) = ground (arith, all-append p qs)

pub all-differ :
    (ps : List Post) (x : Post)
    → any (has_key x.source_channel_id x.source_message_id) ps ≡ false
    → All (λ (p : Post). p.id < x.id) ps
    → all (λ p. differ p x) ps ≡ true
all-differ [] x h k = refl
all-differ (p ∷ ps) x h k = ground (arith, h, k.0, all-differ ps x (ground (arith, h)) k.1)

module _ (test : Post → Bool) (f : Post → Post) (ids : (p : Post) → (f p).id ≡ p.id)
    (channels : (p : Post) → (f p).source_channel_id ≡ p.source_channel_id)
    (messages : (p : Post) → (f p).source_message_id ≡ p.source_message_id) where
  all-modify : (p : Post) (qs : List Post) → all (differ p) (modify test f qs) ≡ all (differ p) qs
  all-modify p [] = refl
  all-modify p (q ∷ qs) = ground (arith, ids q, channels q, messages q, all-modify p qs)

  differ-changed : (p : Post) (qs : List Post) → all (differ (f p)) qs ≡ all (differ p) qs
  differ-changed p qs = rw (ids p, channels p, messages p) refl

  pub are_keyed-modify : (ps : List Post) → are_keyed (modify test f ps) ≡ are_keyed ps
  are_keyed-modify [] = refl
  are_keyed-modify (p ∷ ps) =
      ground (arith, all-modify p ps, all-modify (f p) ps, differ-changed p ps, are_keyed-modify ps)

module _ (f : Post → Post) (ids : (p : Post) → (f p).id ≡ p.id)
    (channels : (p : Post) → (f p).source_channel_id ≡ p.source_channel_id)
    (messages : (p : Post) → (f p).source_message_id ≡ p.source_message_id) where
  -- An update of a row that keeps its keys.
  pub update_post-IsKeyed : (i : ℕ) (db : Db) → IsKeyed db → IsKeyed (update_post i f db)
  update_post-IsKeyed i db h = record {
    keys = are_keyed-modify (λ (p : Post). p.id == i) f ids channels messages db.posts ∙ h.keys;
    made =
        modify-All (λ (p : Post). p.id < db.sequence) (λ (p : Post). p.id < db.sequence) _ f
          db.posts (λ p _ k. rw (ids p) k) (λ p _ k. k) h.made;
  }
