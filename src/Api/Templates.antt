-- ===== src/Api/Templates.antt =====
-- api/routers/templates.py: the templates. The database sets the template of a channel to null with its
-- template's deletion.
pub mod Fallback
use telegram_cms.Prelude.{
  ℕ, suc, Text, not, Option, none, some, List, [], ◌∷◌, ◌++◌, map, keep, modify, or_else, ◌==◌,
  if◌then◌else◌,
}
use telegram_cms.Models.{Template, SourceChannel}
use telegram_cms.World.{Db, http, Result, ok, err, get_template}

pub record TemplateCreate : Type 0 where
  pub name : Text
  pub body : Text

pub record TemplateUpdate : Type 0 where
  pub name : Option Text
  pub body : Option Text

unfoldable pub create_template : TemplateCreate → ℕ → Db → Db
create_template payload now db = record db {
  templates =
      db.templates
      ++ (record { id = db.sequence; name = payload.name; body = payload.body; created_at = now }
          ∷ []);
  sequence = suc db.sequence;
}

unfoldable pub update_template : ℕ → TemplateUpdate → Db → Result Db
update_template i payload db = elim (get_template i db) [
  | none ↦ err (http 404 "template not found")
  | some t ↦ ok (record db {
    templates =
        modify (λ (t : Template). t.id == i)
          (λ t. record t { name = or_else payload.name t.name; body = or_else payload.body t.body })
          db.templates;
  })
]

-- `ON DELETE SET NULL`
abbrev pub forget_template : ℕ → Option ℕ → Option ℕ
forget_template i none = none
forget_template i (some j) = if j == i then none else some j

abbrev pub forget_in : ℕ → SourceChannel → SourceChannel
forget_in i c = record c {
  normalization_template_id = forget_template i c.normalization_template_id;
}

abbrev pub without_template : ℕ → Db → Db
without_template i db = record db {
  templates = keep (λ (t : Template). not (t.id == i)) db.templates;
  channels = map (forget_in i) db.channels;
}

unfoldable pub delete_template : ℕ → Db → Result Db
delete_template i db = elim (get_template i db) [
  | none ↦ err (http 404 "template not found")
  | some t ↦ ok (without_template i db)
]
