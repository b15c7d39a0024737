-- ===== src/Api/Pages/Bounds.antt =====
-- What a listing answers where its rows have no JSON.
use telegram_cms.Prelude.{
  ltb, ◌&&◌, if◌then◌else◌, Bool-cases, ℕ, ◌<◌, ◌≤◌, zero, suc, pos, Bool, true, false, List, [],
  ◌∷◌, all, count, keep, length, take, drop, leb, arith, ◌≡◌, refl, ◌∙◌, ap, sym, ◌⊎◌, inl, inr,
}
use telegram_cms.World.{ok, err, value_error}
use telegram_cms.Api.Pages.{list_page, serialized, paginated, IsOrdering}
use telegram_cms.Api.Pages.Slices.{keep_all, drop-all, length-drop}

module _ {A : Type 0} (encodes : A → Bool) (order_by_desc : (A → ℕ) → List A → List A) (key : A → ℕ)
    (order : IsOrdering key (order_by_desc key)) (test : A → Bool) (rows : List A)
    (bound limit offset : ℕ) (within : leb limit bound ≡ true)
    (refuses : (x : A) → encodes x ≡ false) where
  abbrev matching : List A
  matching = order_by_desc key (keep test rows)

  length-matching : length matching ≡ count test rows
  length-matching =
      ap length (sym (keep_all matching))
      ∙ (order.counts (λ _. true) (keep test rows) ∙ ap length (keep_all (keep test rows)))

  all-take : (n : ℕ) (xs : List A) → 0 < n → 0 < length xs → all encodes (take n xs) ≡ false
  all-take zero xs some_asked h = absurd (omega arith)
  all-take (suc n) [] some_asked h = absurd (omega (arith, h))
  all-take (suc n) (x ∷ xs) some_asked h = ground (arith, refuses x)

  list_page_raised :
      0 < limit
      → offset < count test rows
      → list_page encodes order_by_desc key test bound (pos limit) (pos offset) rows
        ≡ err value_error
  unfolding list_page
  list_page_raised some_asked before =
      rw
        (
          within,
          all-take limit (drop offset matching) some_asked
              (omega (arith, length-matching, length-drop offset matching, before)),
        )
        refl

  list_page_empty :
      (limit ≡ 0) ⊎ (count test rows ≤ offset)
      → list_page encodes order_by_desc key test bound (pos limit) (pos offset) rows
        ≡ ok
            (record { items = []; total = count test rows; limit = pos limit; offset = pos offset })
  unfolding list_page
  list_page_empty (inl unasked) = rw (within, unasked) refl
  list_page_empty (inr past) =
      rw (within, drop-all offset matching (omega (arith, length-matching, past))) (taken limit)
    where
      taken :
          (n : ℕ)
          → serialized encodes
              (paginated (count test rows) (pos limit) (pos offset) (ok (take n [])))
            ≡ ok (record {
              items = [];
              total = count test rows;
              limit = pos limit;
              offset = pos offset;
            })
      taken zero = refl
      taken (suc n) = refl

  pub list_page_unserialized :
      list_page encodes order_by_desc key test bound (pos limit) (pos offset) rows ≡ (
        if ltb 0 limit && ltb offset (count test rows)
        then err value_error
        else ok (record {
          items = [];
          total = count test rows;
          limit = pos limit;
          offset = pos offset;
        }))
  list_page_unserialized = elim (Bool-cases (ltb 0 limit)) [
    | inl asked ↦ elim (Bool-cases (ltb offset (count test rows))) [
      | inl before ↦
          rw (asked, before) (list_page_raised (ground (arith, asked)) (ground (arith, before)))
      | inr past ↦ rw (asked, past) (list_page_empty (inr (ground (arith, past))))
    ]
    | inr unasked ↦ rw unasked (list_page_empty (inl (ground (arith, unasked))))
  ]
