-- ===== src/Api/Pages.antt =====
-- api/schemas.py Paginated, and the query that fills it in api/routers/queue.py and audit.py.
pub mod Slices
pub mod Bounds
use telegram_cms.Prelude.{
  ℕ, ℤ, pos, negsuc, Bool, true, false, List, [], ◌∷◌, ◌≤◌, ◌≡◌, keep, count, all, take, drop, leb,
  if◌then◌else◌,
}
use telegram_cms.World.{Result, ok, err, http, dbapi_error, value_error}

pub record Paginated (A : Type 0) : Type 0 where
  pub items : List A
  pub total : ℕ
  pub limit : ℤ
  pub offset : ℤ

-- `Query(le=bound)`: there is no bound below.
abbrev pub is_within : ℕ → ℤ → Bool
is_within bound (pos n) = leb n bound
is_within bound (negsuc n) = true

-- Postgres refuses a negative LIMIT and a negative OFFSET.
abbrev pub slice : {A : Type 0} → ℤ → ℤ → List A → Result (List A)
slice (pos limit) (pos offset) rows = ok (take limit (drop offset rows))
slice (pos limit) (negsuc _) rows = err dbapi_error
slice (negsuc _) offset rows = err dbapi_error

abbrev pub paginated : {A : Type 0} → ℕ → ℤ → ℤ → Result (List A) → Result (Paginated A)
paginated total limit offset (ok items) =
    ok (record { items = items; total = total; limit = limit; offset = offset })
paginated total limit offset (err x) = err x

-- The response: `encodes` says which rows pydantic writes as JSON where the field's type is `Any`; of another row its
-- serializer raises, with a subclass of ValueError.
abbrev pub serialized : {A : Type 0} → (A → Bool) → Result (Paginated A) → Result (Paginated A)
serialized encodes (ok page) = if all encodes page.items then ok page else err value_error
serialized encodes (err x) = err x

-- `order_by_desc` is the database's: it may order the rows of one key in any way.
unfoldable pub list_page :
    {A : Type 0}
    → (A → Bool)
    → ((A → ℕ) → List A → List A)
    → (A → ℕ)
    → (A → Bool)
    → ℕ
    → ℤ
    → ℤ
    → List A
    → Result (Paginated A)
list_page encodes order_by_desc key test bound limit offset rows =
    if is_within bound limit
    then serialized encodes (
        paginated (count test rows) limit offset
          (slice limit offset (order_by_desc key (keep test rows))))
    else err (http 422 "limit")

abbrev pub IsDescending : {A : Type 0} → (A → ℕ) → List A → Type 0
IsDescending key [] = Unit
IsDescending key (x ∷ []) = Unit
IsDescending key (x ∷ y ∷ ys) = (key y ≤ key x) × IsDescending key (y ∷ ys)

-- What `ORDER BY key DESC` promises: the rows, each as often as before, and none before a later one.
pub record IsOrdering {A : Type 0} (key : A → ℕ) (ordered : List A → List A) : Type 0 where
  pub descending : (xs : List A) → IsDescending key (ordered xs)
  pub counts : (test : A → Bool) (xs : List A) → count test (ordered xs) ≡ count test xs
