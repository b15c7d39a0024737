-- ===== src/Lifecycle/Keyed.antt =====
-- The keys of the table of posts, under the writes of the services.
use telegram_cms.Prelude.{
  ◌<◌, Bool, true, List, [], ◌∷◌, keep, keep-All, map-All, modify-All, append-All, all, All, arith,
  ◌≡◌, refl, ◌∙◌, sym, subst, ap,
}
use telegram_cms.Models.{Post}
use telegram_cms.World.Keyed.{
  IsKeyed, are_keyed, are_keyed-append, are_keyed-modify, all-differ, differ, update_post-IsKeyed,
}
use telegram_cms.Lifecycle.{Who}
use telegram_cms.Lifecycle.Laws.{Allows}

module _ (test : Post → Bool) where
  all-keep :
      (p : Post) (qs : List Post) → all (differ p) qs ≡ true → all (differ p) (keep test qs) ≡ true
  all-keep p [] h = refl
  all-keep p (q ∷ qs) h = ground (arith, h, all-keep p qs)

  are_keyed-keep : (ps : List Post) → are_keyed ps ≡ true → are_keyed (keep test ps) ≡ true
  are_keyed-keep [] h = refl
  are_keyed-keep (p ∷ ps) h = ground (arith, h, are_keyed-keep ps, all-keep p ps)

pub IsKeyed-Allows : (a : Who) → Allows a IsKeyed
IsKeyed-Allows a = record {
  other = λ db db' same more h. record {
    keys = ap are_keyed same ∙ h.keys;
    made =
        subst (λ ps. All (λ (p : Post). p.id < db'.sequence) ps) (sym same)
          (map-All _ _ (λ p k. omega arith) db.posts h.made);
  };
  update = λ f k j db _ h. update_post-IsKeyed f k.ids k.channels k.messages j db h;
  rewrite = λ test f k _ db h. record {
    keys = are_keyed-modify test f k.ids k.channels k.messages db.posts ∙ h.keys;
    made =
        modify-All (λ (p : Post). p.id < db.sequence) (λ (p : Post). p.id < db.sequence) test f
          db.posts (λ p _ m. rw (k.ids p) m) (λ p _ m. m) h.made;
  };
  insert = λ _ row db drawn _ new h. record {
    keys =
        are_keyed-append db.posts row
        ∙ ground (
          arith,
          h.keys,
          all-differ db.posts row new (map-All _ _ (λ p m. omega (arith, drawn)) db.posts h.made),
        );
    made =
        append-All _ db.posts _ (map-All _ _ (λ p m. omega arith) db.posts h.made)
          (omega (arith, drawn), tt);
  };
  delete = λ _ test db _ h. record {
    keys = are_keyed-keep test db.posts h.keys;
    made = keep-All _ _ test db.posts (λ p _ m. m) h.made;
  };
}
