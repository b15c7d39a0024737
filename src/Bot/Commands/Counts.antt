-- ===== src/Bot/Commands/Counts.antt =====
-- What /stats counts.
use telegram_cms.Prelude.{
  ℕ, suc, ◌+◌, Bool, true, false, List, [], ◌∷◌, map, count, keep, length, arith, ◌≡◌, refl, ap,
  ==→eq, ◌∙◌, ◌++◌, codes, ◌==◌, if◌then◌else◌,
}
use telegram_cms.Enums.{PostState, state_eq, state_index}
use telegram_cms.Models.{Post}
use telegram_cms.World.{Db}
use telegram_cms.Env.{Env}
use telegram_cms.Bot.Cards.{join}
use telegram_cms.Bot.Commands.{
  stats_text, stat_line, state_value, tally, grouped, count_of, all_states,
}

abbrev bumped : Bool → ℕ → ℕ
bumped b n = if b then suc n else n

-- The group itself, and a group after it.
same_group :
    (b c : Bool) (n m : ℕ) → b ≡ c → (if c then suc n else m) ≡ bumped b (if c then n else m)
same_group b true n m h = rw h refl
same_group b false n m h = rw h refl

other_group :
    (b c : Bool) (n m : ℕ)
    → (b ≡ true → c ≡ false)
    → (if c then n else bumped b m) ≡ bumped b (if c then n else m)
other_group false true n m h = refl
other_group true true n m h = absurd (ground (arith, h refl))
other_group b false n m h = refl

count_of-tally :
    (s t : PostState) (groups : List (PostState × ℕ))
    → count_of s (tally t groups) ≡ bumped (state_eq s t) (count_of s groups)
count_of-tally s t [] = refl
count_of-tally s t ((u, n) ∷ groups) = go (count_of-tally s t groups) (state_eq t u) refl
  where
    go :
        count_of s (tally t groups) ≡ bumped (state_eq s t) (count_of s groups)
        → (b : Bool) → state_eq t u ≡ b
        → count_of s (if b then (u, suc n) ∷ groups else (u, n) ∷ tally t groups)
          ≡ bumped (state_eq s t) (if state_eq s u then n else count_of s groups)
    go rest true same =
        same_group (state_eq s t) (state_eq s u) n (count_of s groups)
          (ap (λ k. state_index s == k) (==→eq (state_index t) (state_index u) same))
    go rest false other =
        ap (λ m. if state_eq s u then n else m) rest
        ∙ other_group (state_eq s t) (state_eq s u) n (count_of s groups) (λ same.
          ap (λ k. k == state_index u) (==→eq (state_index s) (state_index t) same) ∙ other)

pub count_of-grouped :
    (s : PostState) (ps : List Post)
    → count_of s (grouped ps) ≡ count (λ (p : Post). state_eq s p.state) ps
count_of-grouped s [] = refl
count_of-grouped s (p ∷ ps) =
    count_of-tally s p.state (grouped ps)
    ∙ (ap (bumped (state_eq s p.state)) (count_of-grouped s ps) ∙ counted (state_eq s p.state))
  where
    counted :
        (b : Bool)
        → let rest = keep (λ (q : Post). state_eq s q.state) ps in
          bumped b (length rest) ≡ length (if b then p ∷ rest else rest)
    counted true = refl
    counted false = refl

abbrev pub sum : List ℕ → ℕ
sum [] = 0
sum (n ∷ ns) = n + sum ns

-- A post more in one of the states.
sum-bumped :
    (f : PostState → ℕ) (s : PostState)
    → sum (map (λ t. if state_eq t s then suc (f t) else f t) all_states)
      ≡ suc (sum (map f all_states))
sum-bumped f PostState.pending = omega arith
sum-bumped f PostState.approved = omega arith
sum-bumped f PostState.scheduled = omega arith
sum-bumped f PostState.published = omega arith
sum-bumped f PostState.rejected = omega arith
sum-bumped f PostState.publishing = omega arith
sum-bumped f PostState.publish_failed = omega arith

abbrev pub in_state : PostState → List Post → ℕ
in_state s ps = count (λ (p : Post). state_eq s p.state) ps

map-ext :
    (f g : PostState → ℕ) (ss : List PostState)
    → ((s : PostState) → f s ≡ g s)
    → map f ss ≡ map g ss
map-ext f g [] h = refl
map-ext f g (s ∷ ss) h = rw (h s, map-ext f g ss h) refl

sum-in_state : (ps : List Post) → sum (map (λ s. in_state s ps) all_states) ≡ length ps
sum-in_state [] = refl
sum-in_state (p ∷ ps) =
    ap sum (
      map-ext (λ s. in_state s (p ∷ ps))
        (λ s. if state_eq s p.state then suc (in_state s ps) else in_state s ps) all_states
        (λ s. ground arith))
    ∙ (sum-bumped (λ s. in_state s ps) p.state ∙ ap suc (sum-in_state ps))

-- /stats has a line for each state, with the number of posts in that state, none of them left out where there is no
-- such post, and these numbers add up to the number of posts.
pub stats_text-in_state :
    (e : Env) (db : Db)
    → (stats_text e db
        ≡ join (codes "\n") (
            codes "<b>Stats</b>"
            ∷ map
                (λ s. state_value s ++ (codes ": " ++ e.decimal (in_state s db.posts)))
                all_states))
      × (sum (map (λ s. in_state s db.posts) all_states) ≡ length db.posts)
unfolding stats_text
stats_text-in_state e db = (
  ap (λ ts. join (codes "\n") (codes "<b>Stats</b>" ∷ ts)) (lines all_states),
  sum-in_state db.posts,
)
  where
    lines :
        (ss : List PostState)
        → map (stat_line e (grouped db.posts)) ss
          ≡ map (λ s. state_value s ++ (codes ": " ++ e.decimal (in_state s db.posts))) ss
    lines [] = refl
    lines (s ∷ ss) = rw (count_of-grouped s db.posts, lines ss) refl
