-- ===== src/Services/Edits.antt =====
-- The requests of the back-office on tags, templates and administrators, the seeding and the login, and what they
-- keep of the posts.
use telegram_cms.Prelude.{
  ℕ, ◌≤◌, Text, Option-cases, inl, inr, List, [], ◌∷◌, elem, modify, arith, ◌≡◌, refl, subst, ◌∙◌,
}
use telegram_cms.Models.{Post, Admin, Tag}
use telegram_cms.World.{Db, World, Result, ok, err, get_admin}
use telegram_cms.Env.{Env}
use telegram_cms.Lifecycle.{bystander}
use telegram_cms.Lifecycle.Laws.{Allows, same_key}
use telegram_cms.Api.Tags.{
  TagCreate, TagUpdate, create_tag, add_tag, slugify, update_tag, delete_tag, without_tag,
  array_remove,
}
use telegram_cms.Api.Templates.{TemplateUpdate, create_template, update_template, delete_template}
use telegram_cms.Api.Admins.{
  AdminCreate, AdminUpdate, create_admin, update_admin, changed_admin, store_admin,
}
use telegram_cms.Api.Auth.{Crypto, login, authenticate}
use telegram_cms.Api.Seeds.{
  Seed, default_tags, seed_admin, seed_template, seed_tag, seed_tags, seed_defaults, seed_all,
}
use telegram_cms.Services.{
  Edit, tag_creation, tag_change, tag_deletion, template_creation, template_change,
  template_deletion, admin_creation, admin_change, seeding, edit,
}

-- A write beside the posts.
record IsBeside (db db' : Db) : Type 0 where
  posts : db'.posts ≡ db.posts
  drawn : db.sequence ≤ db'.sequence

module _ (db db' : Db) where
  created_tag-IsBeside :
      (e : Env) (payload : TagCreate) (now : ℕ)
      → create_tag e payload now db ≡ ok db'
      → IsBeside db db'
  unfolding create_tag add_tag
  created_tag-IsBeside e payload now done = added (slugify e payload.slug) done
    where
      added : (r : Result Text) → add_tag payload now db r ≡ ok db' → IsBeside db db'
      added (err x) h = absurd (ground (arith, h))
      added (ok slug) h = record { posts = ground (arith, h); drawn = ground (arith, h) }

  changed_tag-IsBeside :
      (i : ℕ) (payload : TagUpdate) → update_tag i payload db ≡ ok db' → IsBeside db db'
  unfolding update_tag
  changed_tag-IsBeside i payload done = record {
    posts = ground (arith, done);
    drawn = ground (arith, done);
  }

  changed_template-IsBeside :
      (i : ℕ) (payload : TemplateUpdate) → update_template i payload db ≡ ok db' → IsBeside db db'
  unfolding update_template
  changed_template-IsBeside i payload done = record {
    posts = ground (arith, done);
    drawn = ground (arith, done);
  }

  deleted_template-IsBeside : (i : ℕ) → delete_template i db ≡ ok db' → IsBeside db db'
  unfolding delete_template
  deleted_template-IsBeside i done = record {
    posts = ground (arith, done);
    drawn = ground (arith, done);
  }

  created_admin-IsBeside :
      (payload : AdminCreate) (now : ℕ) → create_admin payload now db ≡ ok db' → IsBeside db db'
  unfolding create_admin
  created_admin-IsBeside payload now done = record {
    posts = ground (arith, done);
    drawn = ground (arith, done);
  }

  changed_admin-IsBeside :
      (i : ℕ) (payload : AdminUpdate) (now : ℕ)
      → update_admin i payload now db ≡ ok db'
      → IsBeside db db'
  unfolding update_admin store_admin
  changed_admin-IsBeside i payload now done = elim (Option-cases (get_admin i db)) [
    | inl missing ↦ absurd (ground (arith, done, missing))
    | inr (a, found) ↦
        stored (changed_admin payload now i db.admins a) (ground (arith, done, found))
  ]
    where
      stored : (r : Result Admin) → store_admin i db r ≡ ok db' → IsBeside db db'
      stored (err x) h = absurd (ground (arith, h))
      stored (ok b) h = record { posts = ground (arith, h); drawn = ground (arith, h) }

IsBeside-trans : (a b c : Db) → IsBeside a b → IsBeside b c → IsBeside a c
IsBeside-trans a b c h k = record {
  posts = k.posts ∙ h.posts;
  drawn = omega (arith, h.drawn, k.drawn);
}

seed_admin-IsBeside :
    (e : Env) (hash_password : Text → Text) (now : ℕ) (db : Db)
    → IsBeside db (seed_admin e hash_password now db)
unfolding seed_admin
seed_admin-IsBeside e hash_password now db = record { posts = ground arith; drawn = ground arith }

seed_template-IsBeside : (now : ℕ) (db : Db) → IsBeside db (seed_template now db)
unfolding seed_template
seed_template-IsBeside now db = record { posts = ground arith; drawn = ground arith }

seed_tag-IsBeside :
    (existing : List Tag) (now : ℕ) (s : Seed) (db : Db) → IsBeside db (seed_tag existing now s db)
unfolding seed_tag
seed_tag-IsBeside existing now s db = record { posts = ground arith; drawn = ground arith }

seed_tags-IsBeside :
    (existing : List Tag) (now : ℕ) (ss : List Seed) (db : Db)
    → IsBeside db (seed_tags existing now ss db)
unfolding seed_tags
seed_tags-IsBeside existing now [] db = record { posts = refl; drawn = omega arith }
seed_tags-IsBeside existing now (s ∷ ss) db =
    IsBeside-trans db (seed_tag existing now s db) _ (seed_tag-IsBeside existing now s db)
      (seed_tags-IsBeside existing now ss (seed_tag existing now s db))

seed_all-IsBeside :
    (e : Env) (hash_password : Text → Text) (now : ℕ) (db : Db)
    → IsBeside db (seed_all e hash_password now db)
unfolding seed_all seed_defaults
seed_all-IsBeside e hash_password now db =
    let first = seed_admin e hash_password now db in
    IsBeside-trans db first _ (seed_admin-IsBeside e hash_password now db) (
      IsBeside-trans first (seed_template now first) _ (seed_template-IsBeside now first)
        (seed_tags-IsBeside first.tags now default_tags (seed_template now first)))

module _ (P : Db → Type 0) (laws : Allows bystander P) where
  beside_kept : (db db' : Db) → IsBeside db db' → P db → P db'
  beside_kept db db' h k = laws.other db db' h.posts h.drawn k

  deleted_tag_kept : (i : ℕ) (db db' : Db) → delete_tag i db ≡ ok db' → P db → P db'
  unfolding delete_tag
  deleted_tag_kept i db db' done k = subst P gone (
      laws.other
        (record db {
          posts =
              modify (λ (p : Post). elem i p.tag_ids)
                (λ p. record p { tag_ids = array_remove i p.tag_ids }) db.posts;
        })
        (without_tag i db) refl (omega arith)
        (laws.rewrite (λ (p : Post). elem i p.tag_ids)
          (λ p. record p { tag_ids = array_remove i p.tag_ids }) (same_key _ (λ p. refl))
          (λ p. refl) db k))
    where
      gone : without_tag i db ≡ db'
      gone = ground (arith, done)

  pub edit_kept : (e : Env) (x : Edit) (db db' : Db) → edit e x db ≡ ok db' → P db → P db'
  unfolding edit create_template
  edit_kept e (tag_creation payload now) db db' done =
      beside_kept db db' (created_tag-IsBeside db db' e payload now done)
  edit_kept e (tag_change i payload) db db' done =
      beside_kept db db' (changed_tag-IsBeside db db' i payload done)
  edit_kept e (tag_deletion i) db db' done = deleted_tag_kept i db db' done
  edit_kept e (template_creation payload now) db db' done =
      beside_kept db db' (record { posts = ground (arith, done); drawn = ground (arith, done) })
  edit_kept e (template_change i payload) db db' done =
      beside_kept db db' (changed_template-IsBeside db db' i payload done)
  edit_kept e (template_deletion i) db db' done =
      beside_kept db db' (deleted_template-IsBeside db db' i done)
  edit_kept e (admin_creation payload now) db db' done =
      beside_kept db db' (created_admin-IsBeside db db' payload now done)
  edit_kept e (admin_change i payload now) db db' done =
      beside_kept db db' (changed_admin-IsBeside db db' i payload now done)
  edit_kept e (seeding hash_password now) db db' done =
      beside_kept db db'
        (subst (IsBeside db) (ground (arith, done)) (seed_all-IsBeside e hash_password now db))

  pub login_kept :
      (k : Crypto) (e : Env) (name password : Text) (w : World)
      → P w.db
      → P (login k e name password w).1.db
  unfolding login authenticate
  login_kept k e name password w h = laws.other w.db _ (ground arith) (ground arith) h
