-- ===== src/Userbot/Media/Target.antt =====
-- The path of a new media file: the loop that looks for a free one ends, and with one.
use telegram_cms.Prelude.{
  ℕ, zero, suc, codes, text_or, ◌+◌, ◌≤◌, ◌<◌, Text, text_eq, text_eq→eq, Bool, true, false, not,
  List, [], ◌∷◌, ◌++◌, any, keep, length, length-append, arith, ◌≡◌, ◌≢◌, refl, ap, sym, ◌∙◌, ◌==◌,
  ==→eq, inl, inr, Bool-cases,
}
use telegram_cms.Enums.{MediaType, media_value}
use telegram_cms.World.{World, MediaFile, file_exists}
use telegram_cms.Env.{Env}
use telegram_cms.Userbot.Media.{free_index, free_path, target}

abbrev has_path : Text → List MediaFile → Bool
has_path t fs = any (λ (f : MediaFile). text_eq f.path t) fs

-- Without the files at a path, the others are still there, and the list is shorter if there was one.
without-has_path :
    (s t : Text) (fs : List MediaFile)
    → s ≢ t
    → has_path t (keep (λ (f : MediaFile). not (text_eq f.path s)) fs) ≡ has_path t fs
without-has_path s t [] ne = refl
without-has_path s t (f ∷ fs) ne = elim (Bool-cases (text_eq f.path s)) [
  | inl here ↦ rw here (rw (apart f here) (without-has_path s t fs ne))
  | inr away ↦ rw away (ground (arith, without-has_path s t fs ne))
]
  where
    apart : (g : MediaFile) → text_eq g.path s ≡ true → text_eq g.path t ≡ false
    apart g here = elim (Bool-cases (text_eq g.path t)) [
      | inl both ↦ absurd (ne (sym (text_eq→eq g.path s here) ∙ text_eq→eq g.path t both))
      | inr away ↦ away
    ]

length-without :
    (s : Text) (fs : List MediaFile)
    → length (keep (λ (f : MediaFile). not (text_eq f.path s)) fs) ≤ length fs
length-without s [] = omega arith
length-without s (f ∷ fs) = ground (arith, length-without s fs)

length-without_lt :
    (s : Text) (fs : List MediaFile)
    → has_path s fs ≡ true
    → length (keep (λ (f : MediaFile). not (text_eq f.path s)) fs) < length fs
length-without_lt s [] h = ground arith
length-without_lt s (f ∷ fs) h = ground (arith, length-without s fs, length-without_lt s fs)

true_ne_false : true ≢ false
true_ne_false e = ground (arith, e)

module _ (path : ℕ → Text) (injective : (i j : ℕ) → path i ≡ path j → i ≡ j) where
  -- More indices than files: one of the paths is free.
  some_free :
      (n i : ℕ) (fs : List MediaFile)
      → length fs < n
      → (j : ℕ) × (i ≤ j) × (j < i + n) × (has_path (path j) fs ≡ false)
  some_free zero i fs h = absurd (omega arith)
  some_free (suc n) i fs h = elim (Bool-cases (has_path (path i) fs)) [
    | inr free ↦ (i, omega arith, omega arith, free)
    | inl taken ↦
        let (j, after, before, free) =
          some_free n (suc i) (keep (λ (f : MediaFile). not (text_eq f.path (path i))) fs)
            (omega (arith, length-without_lt (path i) fs taken)) in
        (
          j,
          omega arith,
          omega arith,
          sym (
                without-has_path (path i) (path j) fs
                  (λ e. absurd (ground (arith, injective i j e, after))))
              ∙ free,
        )
  ]

module _ (path : ℕ → Text) where
  later :
      (fs : List MediaFile) (i j : ℕ)
      → i ≤ j
      → has_path (path j) fs ≡ false
      → has_path (path i) fs ≡ true
      → suc i ≤ j
  later fs i j h free taken = elim (Bool-cases (i == j)) [
    | inl same ↦ absurd (true_ne_false (sym taken ∙ rw (==→eq i j same) free))
    | inr apart ↦ ground arith
  ]

  free_index_lem :
      (w : World) (n i j : ℕ)
      → i ≤ j
      → j < i + n
      → has_path (path j) w.files ≡ false
      → (file_exists (path (free_index path w n i)) w ≡ false) × (free_index path w n i ≤ j)
  unfolding free_index
  free_index_lem w zero i j h k free = absurd (omega arith)
  free_index_lem w (suc n) i j h k free = elim (Bool-cases (file_exists (path i) w)) [
    | inr done ↦ rw done (done, h)
    | inl taken ↦
        rw taken (free_index_lem w n (suc i) j (later w.files i j h free taken) (omega arith) free)
  ]

free_index-first :
    (path : ℕ → Text) (w : World)
    → ((i j : ℕ) → path i ≡ path j → i ≡ j)
    → (file_exists (path (free_index path w (suc (length w.files)) 0)) w ≡ false)
      × (free_index path w (suc (length w.files)) 0 ≤ length w.files)
free_index-first path w injective =
    let k = some_free path injective (suc (length w.files)) 0 w.files (omega arith) in
    let found = free_index_lem path w (suc (length w.files)) 0 k.0 k.1 k.2 k.3 in
    (found.0, omega (arith, found.1, k.2))

append-cancel_left : (xs ys zs : Text) → xs ++ ys ≡ xs ++ zs → ys ≡ zs
append-cancel_left [] ys zs e = e
append-cancel_left (x ∷ xs) ys zs e = append-cancel_left xs ys zs (cc)

append-cancel_right : (xs ys zs : Text) → xs ++ zs ≡ ys ++ zs → xs ≡ ys
append-cancel_right [] [] zs e = refl
append-cancel_right [] (y ∷ ys) zs e =
    absurd (omega (arith, ap length e, length-append (y ∷ ys) zs))
append-cancel_right (x ∷ xs) [] zs e =
    absurd (omega (arith, ap length e, length-append (x ∷ xs) zs))
append-cancel_right (x ∷ xs) (y ∷ ys) zs e = ground (arith, append-cancel_right xs ys zs)

-- Where `str` writes different numbers differently, the loop that looks for a free path ends after one round
-- for each file of the directory at most, and no file is there at the path that it finds.
pub free_path-target :
    (e : Env) (post_id : ℕ) (kind : MediaType) (ext : Text) (w : World)
    → ((i j : ℕ) → e.decimal i ≡ e.decimal j → i ≡ j)
    → (file_exists (target e post_id kind ext (free_path e post_id kind ext w)) w ≡ false)
      × (free_path e post_id kind ext w ≤ length w.files)
unfolding free_path
free_path-target e post_id kind ext w injective =
    free_index-first (target e post_id kind ext) w λ i j same.
      injective i j (append-cancel_right (e.decimal i) (e.decimal j) rest (inside i j same))
  where
    rest : Text
    rest = b'_' ∷ (media_value kind ++ (b'.' ∷ text_or ext (codes "bin")))

    inside :
        (i j : ℕ)
        → target e post_id kind ext i ≡ target e post_id kind ext j
        → e.decimal i ++ rest ≡ e.decimal j ++ rest
    inside i j same = append-cancel_left (b'_' ∷ []) _ _ (
        append-cancel_left (e.decimal post_id) _ _
          (append-cancel_left (b'/' ∷ []) _ _ (append-cancel_left e.media_dir _ _ same)))
