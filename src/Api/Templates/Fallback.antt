-- ===== src/Api/Templates/Fallback.antt =====
-- How posts are rendered after a template was changed or deleted.
use telegram_cms.Prelude.{
  ℕ, Bool, false, not, Option, none, some, List, [], ◌∷◌, keep, find, arith, ◌≡◌, refl, ap, sym,
  ◌∙◌, ◌==◌, if◌then◌else◌, inl, inr, Option-cases,
}
use telegram_cms.Models.{Template, SourceChannel}
use telegram_cms.World.{Db, ok}
use telegram_cms.Worker.Normalize.{template_body, default_template_body}
use telegram_cms.Api.Templates.{delete_template, forget_in, without_template}

others_stay :
    (i j : ℕ) (ts : List Template)
    → (j == i) ≡ false
    → find (λ (t : Template). t.id == j) (keep (λ (t : Template). not (t.id == i)) ts)
      ≡ find (λ (t : Template). t.id == j) ts
others_stay i j [] ne = refl
others_stay i j (t ∷ ts) ne = ground (arith, ne, others_stay i j ts ne)

-- Whether a channel's template is this one.
abbrev pub uses : ℕ → Option ℕ → Bool
uses i none = false
uses i (some j) = j == i

after_deletion :
    (i : ℕ) (db : Db) (c : SourceChannel)
    → template_body (forget_in i c) (without_template i db)
      ≡ (if uses i c.normalization_template_id then default_template_body else template_body c db)
unfolding template_body
after_deletion i db c = elim (Option-cases c.normalization_template_id) [
  | inl e ↦ ground (arith, e)
  | inr (j, e) ↦ ground (arith, e, others_stay i j db.templates)
]

-- After a template was deleted, the channels that used it are rendered by the default template, and the other
-- channels as before.
pub delete_template-template_body :
    (i : ℕ) (db db' : Db) (c : SourceChannel)
    → delete_template i db ≡ ok db'
    → template_body (forget_in i c) db'
      ≡ (if uses i c.normalization_template_id then default_template_body else template_body c db)
unfolding delete_template
delete_template-template_body i db db' c done =
    ap (template_body (forget_in i c)) (sym gone) ∙ after_deletion i db c
  where
    gone : without_template i db ≡ db'
    gone = ground (arith, done)
