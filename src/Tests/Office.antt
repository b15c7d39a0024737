-- ===== src/Tests/Office.antt =====
-- The back-office's theorems at concrete inputs.
use telegram_cms.Prelude.{
  ℕ, ◌<◌, ◌≡◌, refl, true, false, Option, none, some, [], ◌∷◌, Text, codes, arith, ltb, ◌==◌,
  if◌then◌else◌, opt_or, any, elem,
}
use telegram_cms.Enums.{Role, PostState, role_at_least, role_rank}
use telegram_cms.Models.{Admin, Tag, Post}
use telegram_cms.World.{Db, World, Redis, http, Exn, ok, err, get_post}
use telegram_cms.Bot.Publisher.{already_published}
use telegram_cms.Bot.Publisher
use telegram_cms.Worker.Reconcile.{is_overdue}
use telegram_cms.Api.Queue.{decide, approve, PostDecision}
use telegram_cms.Api.Queue.Effects.{publish-approve_published, approve_unqueued}
use telegram_cms.Api.Tags.{delete_tag}
use telegram_cms.Api.Tags.Removal.{delete_tag_lem}
use telegram_cms.Api.Admins.{AdminUpdate, update_admin, active_supers}
use telegram_cms.Api.Admins.LastSuper.{update_admin-active_supers}
use telegram_cms.Api.Auth.{
  Crypto, TokenClaims, TokenType, access, refresh, is_access, create_access_token, require_role,
}
use telegram_cms.Api.Auth.Access.{IsSigning, IsIn, require_role_sound}
use telegram_cms.Tests.Samples.{world, db, post, boss, env, news}

abbrev pub late_decision : PostDecision
late_decision = record { action = codes "schedule"; tag_ids = none; scheduled_for = some 5 }

late_refused :
    (decide 5 late_decision boss world).0 ≡ err (http 400 "scheduled_for must be in the future")
unfolding decide
late_refused = refl

abbrev old_post : Post
old_post = record post { state = PostState.published; published_message_id = some 77 }

abbrev published_world : World
published_world = record world { db = record db { posts = old_post ∷ [] } }

publish-approve_published_example :
    let w' = (approve 5 none boss published_world).1 in
    (Publisher.publish env 5 w' ≡ (ok already_published, w'))
    × ((q : Post) × (get_post 5 w'.db ≡ some q) × (q.state ≡ PostState.approved))
publish-approve_published_example =
    publish-approve_published 5 boss published_world old_post refl env 77 refl

abbrev redis_lost : World
redis_lost = record world { redis = Redis.os_down }

approve_unqueued_example :
    let w' = (approve 5 none boss redis_lost).1 in
    ((x : Exn) × ((approve 5 none boss redis_lost).0 ≡ err x))
    × (w'.jobs ≡ [])
    × ((q : Post) × (get_post 5 w'.db ≡ some q)
        × (q.state ≡ PostState.approved)
        × (is_overdue 7 q ≡ false))
approve_unqueued_example = approve_unqueued 5 boss redis_lost post refl (λ e. cc) 7

abbrev second : Admin
second = record boss { id = 2; username = codes "second" }

abbrev two_supers : Db
two_supers = record db { admins = boss ∷ second ∷ [] }

abbrev demotion : AdminUpdate
demotion = record {
  password_hash = none;
  role = some Role.editor;
  disabled = some true;
  tg_user_id = none;
}

demoted :
    update_admin 1 demotion 9 two_supers
    ≡ ok (record two_supers {
      admins = record boss { role = Role.editor; disabled_at = some 9 } ∷ second ∷ [];
    })
unfolding update_admin
demoted = refl

update_admin-active_supers_example :
    0 < active_supers (record boss { role = Role.editor; disabled_at = some 9 } ∷ second ∷ [])
update_admin-active_supers_example =
    update_admin-active_supers 1 demotion 9 two_supers
      (record two_supers {
        admins = record boss { role = Role.editor; disabled_at = some 9 } ∷ second ∷ [];
      })
      (refl, (refl, tt)) (omega arith) demoted

-- A token that spells its claims out, and whose time is checked.
abbrev spell_type : TokenType → ℕ
spell_type access = 1
spell_type refresh = 0

abbrev spell : TokenClaims → Text
spell c = role_rank c.role ∷ spell_type c.token_type ∷ c.admin_id ∷ c.exp ∷ c.sub

abbrev read_role : ℕ → Role
read_role n = if n == 0 then Role.editor else if n == 1 then Role.admin else Role.super_admin

abbrev read : ℕ → Text → Option TokenClaims
read now (r ∷ t ∷ i ∷ x ∷ sub) =
    if ltb now x
    then some (record {
      sub = sub;
      admin_id = i;
      role = read_role r;
      token_type = if t == 1 then access else refresh;
      exp = x;
    })
    else none
read now _ = none

abbrev crypto : Crypto
crypto = record {
  encode = spell;
  decode = read;
  verify = λ a b. true;
  hash = λ t. t;
  needs_rehash = λ t. false;
}

read_role-rank : (r : Role) → read_role (role_rank r) ≡ r
read_role-rank Role.editor = refl
read_role-rank Role.admin = refl
read_role-rank Role.super_admin = refl

crypto-IsSigning : IsSigning crypto
crypto-IsSigning = record {
  solid = λ c. refl;
  valid = λ now c h. ground (arith, h, read_role-rank c.role);
}

abbrev token : Option Text
token = some (create_access_token crypto env 1000000 boss)

passes : require_role crypto Role.admin token world ≡ ok boss
unfolding require_role create_access_token
passes = refl

require_role_sound_example :
    (c : TokenClaims) × (read 1000000 (opt_or token []) ≡ some c)
    × (is_access c.token_type ≡ true)
    × (1 ≡ c.admin_id)
    × IsIn boss world.db.admins
    × (boss.disabled_at ≡ none)
    × (role_at_least Role.super_admin Role.admin ≡ true)
require_role_sound_example = require_role_sound crypto Role.admin token world boss passes

abbrev tagged_db : Db
tagged_db = record db { posts = record post { tag_ids = 2 ∷ 1 ∷ [] } ∷ [] }

delete_tag_lem_example :
    (db' : Db) × (delete_tag 1 tagged_db ≡ ok db')
    × (any (λ (p : Post). elem 1 p.tag_ids) db'.posts ≡ false)
    × (any (λ (u : Tag). u.id == 1) db'.tags ≡ false)
    × (db'.channels ≡ tagged_db.channels)
delete_tag_lem_example = delete_tag_lem 1 tagged_db news refl
