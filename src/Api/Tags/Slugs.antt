-- ===== src/Api/Tags/Slugs.antt =====
-- The slugs that a tag may get.
use telegram_cms.Prelude.{
  ℕ, zero, suc, ◌<◌, Text, Bool, true, false, not, ◌&&◌, ◌||◌, [], ◌∷◌, take, length, is_empty,
  arith, ◌≡◌, refl, ap, sym, subst, ◌∙◌, ◌==◌, if◌then◌else◌,
}
use telegram_cms.World.{ok}
use telegram_cms.Env.{Env}
use telegram_cms.Api.Tags.{is_slug_char, dash_runs, drop_dashes, trim_end, slug_of, slugify}

-- Letters and digits with single dashes; the test says whether a dash came before.
abbrev runs : Bool → Text → Bool
runs dash [] = true
runs dash (c ∷ cs) =
    if is_slug_char c then runs false cs else (c == b'-') && (not dash && runs true cs)

-- The same, where the last character is no dash.
abbrev pub is_slug : Bool → Text → Bool
is_slug dash [] = not dash
is_slug dash (c ∷ cs) =
    if is_slug_char c then is_slug false cs else (c == b'-') && (not dash && is_slug true cs)

dash_runs-runs : (b : Bool) (t : Text) → runs b (dash_runs b t) ≡ true
unfolding dash_runs
dash_runs-runs b [] = refl
dash_runs-runs b (c ∷ cs) = ground (arith, dash_runs-runs true cs, dash_runs-runs false cs)

drop_dashes_id : (t : Text) → runs true t ≡ true → drop_dashes t ≡ t
unfolding drop_dashes
drop_dashes_id [] h = refl
drop_dashes_id (c ∷ cs) h = ground (arith, h)

drop_dashes-runs : (t : Text) → runs false t ≡ true → runs true (drop_dashes t) ≡ true
unfolding drop_dashes
drop_dashes-runs [] h = refl
drop_dashes-runs (c ∷ cs) h = ground (arith, h, drop_dashes_id cs)

empty-eq : (t : Text) → is_empty t ≡ true → t ≡ []
empty-eq [] h = refl
empty-eq (c ∷ cs) h = ground (arith, h)

trim_end-is_slug :
    (b : Bool) (t : Text)
    → runs b t ≡ true
    → (is_empty (trim_end t) || is_slug b (trim_end t)) ≡ true
unfolding trim_end
trim_end-is_slug b [] h = refl
trim_end-is_slug b (c ∷ cs) h =
    ground (arith, h, trim_end-is_slug true cs, trim_end-is_slug false cs, empty-eq (trim_end cs))

slug_of-is_slug :
    (e : Env) (v : Text) → (is_empty (slug_of e v) || is_slug true (slug_of e v)) ≡ true
unfolding slug_of
slug_of-is_slug e v =
    let dashed = dash_runs false (e.lower v) in
    trim_end-is_slug true (drop_dashes dashed)
      (drop_dashes-runs dashed (dash_runs-runs false (e.lower v)))

dash_runs_id : (b : Bool) (t : Text) → is_slug b t ≡ true → dash_runs b t ≡ t
unfolding dash_runs
dash_runs_id b [] h = refl
dash_runs_id b (c ∷ cs) h = ground (arith, h, dash_runs_id true cs, dash_runs_id false cs)

is_slug-runs : (b : Bool) (t : Text) → is_slug b t ≡ true → runs b t ≡ true
is_slug-runs b [] h = refl
is_slug-runs b (c ∷ cs) h = ground (arith, h, is_slug-runs true cs, is_slug-runs false cs)

is_slug_start : (t : Text) → is_slug true t ≡ true → is_slug false t ≡ true
is_slug_start [] h = refl
is_slug_start (c ∷ cs) h = ground (arith, h)

trim_end_id : (b : Bool) (t : Text) → is_slug b t ≡ true → trim_end t ≡ t
unfolding trim_end
trim_end_id b [] h = refl
trim_end_id b (c ∷ []) h = ground (arith, h)
trim_end_id b (c ∷ d ∷ ds) h =
    ground (arith, h, trim_end_id true (d ∷ ds), trim_end_id false (d ∷ ds))

slug_of_id : (e : Env) (s : Text) → e.lower s ≡ s → is_slug true s ≡ true → slug_of e s ≡ s
unfolding slug_of
slug_of_id e s low h = rw low (
    rw (dash_runs_id false s (is_slug_start s h))
      (rw (drop_dashes_id s (is_slug-runs true s h)) (trim_end_id true s h)))

take_short : (n : ℕ) (t : Text) → length (take n t) < n → take n t ≡ t
take_short zero t h = absurd (omega arith)
take_short (suc n) [] h = refl
take_short (suc n) (c ∷ cs) h = ap (λ (r : Text). c ∷ r) (take_short n cs (omega arith))

-- A slug of fewer than 64 characters is made of lower-case letters and digits with single dashes between
-- them, and where lower case keeps it, a tag that is asked for under it gets just that slug.
pub slugify_again :
    (e : Env) (v s : Text)
    → slugify e v ≡ ok s
    → length s < 64
    → e.lower s ≡ s
    → (is_slug true s ≡ true) × (slugify e s ≡ ok s)
unfolding slugify
slugify_again e v s done short low = (slug, again)
  where
    cut : take 64 (slug_of e v) ≡ s
    cut = ground (arith, done)

    whole : slug_of e v ≡ s
    whole = sym (take_short 64 (slug_of e v) (rw cut short)) ∙ cut

    filled : is_empty s ≡ false
    filled = ground (arith, done, whole)

    slug : is_slug true s ≡ true
    slug = ground (
      arith,
      filled,
      subst (λ t. (is_empty t || is_slug true t) ≡ true) whole (slug_of-is_slug e v),
    )

    again : slugify e s ≡ ok s
    again = ground (arith, slug_of_id e s low slug, filled, subst (λ t. take 64 t ≡ s) whole cut)
