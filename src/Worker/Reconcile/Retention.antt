-- ===== src/Worker/Reconcile/Retention.antt =====
-- What the daily pruning may not change.
use telegram_cms.Prelude.{
  subst, sym, ℕ, ◌+◌, ◌≤◌, ◌<◌, Text, Bool, true, false, not, ◌&&◌, ◌||◌, List, [], ◌∷◌, arith, ◌≡◌,
  refl, keep, any, text_eq, text_eq→eq,
}
use telegram_cms.Enums.{PostState, state_in}
use telegram_cms.Models.{Post, PublishedDedupe, days}
use telegram_cms.World.{World, MediaFile, file_exists}
use telegram_cms.Env.{Env}
use telegram_cms.Worker.Normalize.{is_duplicate}
use telegram_cms.Worker.Reconcile.{prune_dedupe, media_relevant_states}

any-keep_within :
    (q p : PublishedDedupe → Bool) (ds : List PublishedDedupe)
    → ((d : PublishedDedupe) → q d ≡ true → p d ≡ true)
    → any q (keep p ds) ≡ any q ds
any-keep_within q p [] h = refl
any-keep_within q p (d ∷ ds) h = ground (arith, h d, any-keep_within q p ds h)

-- The answer of the duplicate check, now or later, is the same before and after a pruning.
pub is_duplicate-prune_dedupe :
    (e : Env) (h : Text) (w : World) (later : ℕ)
    → w.now ≤ later
    → is_duplicate e h later (prune_dedupe e w).1.db ≡ is_duplicate e h later w.db
unfolding prune_dedupe is_duplicate
is_duplicate-prune_dedupe e h w later after =
    any-keep_within _ _ w.db.dedupe (λ d k. ground (arith, after, k))

-- A post in a relevant state has the path among its media.
abbrev pub mentions : Text → Post → Bool
mentions t p = state_in p.state media_relevant_states && any (λ u. text_eq u t) p.media_paths

any_or :
    (f : MediaFile) (us : List Text)
    → any (λ u. text_eq u f.path) us ≡ true
    → any (λ u. text_eq u f.path || text_eq u f.name) us ≡ true
any_or f [] k = ground (arith, k)
any_or f (u ∷ us) k = ground (arith, k, any_or f us)

mentions-is_referenced :
    (f : MediaFile) (ps : List Post)
    → any (mentions f.path) ps ≡ true
    → any
        (λ (p : Post). any (λ u. text_eq u f.path || text_eq u f.name) p.media_paths)
        (keep (λ (p : Post). state_in p.state media_relevant_states) ps)
      ≡ true
mentions-is_referenced f [] k = ground (arith, k)
mentions-is_referenced f (p ∷ ps) k =
    ground (arith, k, mentions-is_referenced f ps, any_or f p.media_paths)

any-keep_path :
    (t : Text) (removed : MediaFile → Bool) (fs : List MediaFile)
    → ((f : MediaFile) → text_eq f.path t ≡ true → removed f ≡ false)
    → any (λ (f : MediaFile). text_eq f.path t) (keep (λ f. not (removed f)) fs)
      ≡ any (λ (f : MediaFile). text_eq f.path t) fs
any-keep_path t removed [] h = refl
any-keep_path t removed (f ∷ fs) h = ground (arith, h f, any-keep_path t removed fs h)

-- A path that a pending, approved, scheduled or published post names is on disk after the pruning
-- exactly if it was before.
pub file_exists-prune_dedupe :
    (e : Env) (w : World) (t : Text)
    → any (mentions t) w.db.posts ≡ true
    → file_exists t (prune_dedupe e w).1 ≡ file_exists t w
unfolding prune_dedupe
file_exists-prune_dedupe e w t named = any-keep_path t _ w.files λ f same. ground (
  arith,
  mentions-is_referenced f w.db.posts
      (subst (λ u. any (mentions u) w.db.posts ≡ true) (sym (text_eq→eq f.path t same)) named),
)

-- A post whose publishing failed protects no file: where it is the only post, an old file of its own,
-- which a retry would send, is deleted.
pub prune_dedupe-failed_media :
    (e : Env) (w : World) (p : Post) (f : MediaFile)
    → w.db.posts ≡ p ∷ []
    → p.state ≡ PostState.publish_failed
    → p.media_paths ≡ f.path ∷ []
    → w.files ≡ f ∷ []
    → f.is_file ≡ true
    → f.removable ≡ true
    → f.mtime + days e.media_retention_days < w.now
    → file_exists f.path (prune_dedupe e w).1 ≡ false
unfolding prune_dedupe
prune_dedupe-failed_media e w p f only failed paths files plain removable old =
    ground (arith, only, failed, paths, files, plain, removable, old)
