-- ===== src/Bot/Callbacks/Press.antt =====
-- Who may press a button, and what a press writes and queues.
use telegram_cms.Prelude.{
  ℕ, zero, suc, ℤ, int_eq→eq, Bool, true, false, not, ◌&&◌, Option, none, some, List, [], ◌∷◌, ◌++◌,
  arith, ◌≡◌, refl, ap, ◌⊎◌, inl, inr, find_sound, is_some,
}
use telegram_cms.Enums.{Role, PostState, EventAction, role_at_least}
use telegram_cms.Models.{Admin, Post, SourceChannel, inline}
use telegram_cms.World.{
  Db, World, Exn, Reply, up, publish, bot, err, bot_call, get_post, get_channel, enqueue_job,
  add_event, update_post, answer_callback,
}
use telegram_cms.World.Frames.{Frames, Frames-pure}
use telegram_cms.Env.{Env}
use telegram_cms.Bot.Send.Silent.{IsOutside, bot_call-Frames}
use telegram_cms.Bot.Publisher.Stages.{get_post-update, db-IsOutside, best_effort-Frames}
use telegram_cms.Bot.Callbacks.{
  CallbackQuery, linked_admin, authorized, cb_approve, cb_reject, is_linked, in_group, refresh_card,
}

-- The button stands in the editors' group, and it is pressed by the Telegram account of an administrator
-- who is not disabled and is an editor at least.
abbrev pub MayPress : Env → CallbackQuery → Db → Type 0
MayPress e c db =
    (c.chat ≡ some e.editor_group_id)
    × ((a : Admin) × (linked_admin c.from_user db ≡ some a)
        × (a.tg_user_id ≡ some c.from_user)
        × (a.disabled_at ≡ none)
        × (role_at_least a.role Role.editor ≡ true))

is_linked→eq : (user : ℤ) (t : Option ℤ) → is_linked user t ≡ true → t ≡ some user
is_linked→eq user none h = ground (arith, h)
is_linked→eq user (some t) h = ap some (int_eq→eq t user h)

in_group→eq : (group : ℤ) (chat : Option ℤ) → in_group group chat ≡ true → chat ≡ some group
in_group→eq group none h = ground (arith, h)
in_group→eq group (some chat) h = ap some (int_eq→eq chat group h)

authorized_sound :
    (e : Env) (c : CallbackQuery) (db : Db) → authorized e c db ≡ true → MayPress e c db
unfolding authorized
authorized_sound e c db h = (
  in_group→eq e.editor_group_id c.chat (ground (arith, h)),
  go (linked_admin c.from_user db) refl,
)
  where
    go :
        (o : Option Admin)
        → linked_admin c.from_user db ≡ o
        → (a : Admin) × (linked_admin c.from_user db ≡ some a)
          × (a.tg_user_id ≡ some c.from_user)
          × (a.disabled_at ≡ none)
          × (role_at_least a.role Role.editor ≡ true)
    go none k = absurd (ground (arith, h, k))
    go (some a) k =
        let s =
          find_sound
            (λ (b : Admin). is_linked c.from_user b.tg_user_id && not (is_some b.disabled_at))
            db.admins a k in
        (
          a,
          k,
          is_linked→eq c.from_user a.tg_user_id (ground (arith, s)),
          ground (arith, s),
          ground (arith, h, k),
        )

jobs-IsOutside : IsOutside (λ (w : World). w.jobs)
jobs-IsOutside = record { call = λ w rs sent. refl; reply = λ w rs. refl; clock = λ w t. refl }

module _ {V : Type 0} {view : World → V} (o : IsOutside view) (e : Env) (c : CallbackQuery)
    (p : Post) (channel : SourceChannel) where
  pub refresh_card-Frames : (m : Option ℕ) (db : Db) → Frames view (refresh_card e c p channel m db)
  unfolding refresh_card
  refresh_card-Frames none db = Frames-pure view tt
  refresh_card-Frames (some zero) db = Frames-pure view tt
  refresh_card-Frames (some (suc m)) db = best_effort-Frames o _ (bot_call-Frames o _)

-- A press of either button changes the database or the queues only where it comes from the editors'
-- group, from the account of an administrator who is not disabled and is an editor at least.
pub cb_authorized :
    (e : Env) (c : CallbackQuery) (w : World)
    → MayPress e c w.db
      ⊎ (((cb_approve e c w).1.db ≡ w.db)
          × ((cb_approve e c w).1.jobs ≡ w.jobs)
          × ((cb_reject e c w).1.db ≡ w.db)
          × ((cb_reject e c w).1.jobs ≡ w.jobs))
unfolding cb_approve cb_reject bot_call
cb_authorized e c w = go (authorized e c w.db) refl
  where
    go :
        (b : Bool)
        → authorized e c w.db ≡ b
        → MayPress e c w.db
          ⊎ (((cb_approve e c w).1.db ≡ w.db)
              × ((cb_approve e c w).1.jobs ≡ w.jobs)
              × ((cb_reject e c w).1.db ≡ w.db)
              × ((cb_reject e c w).1.jobs ≡ w.jobs))
    go true h = inl (authorized_sound e c w.db h)
    go false h = inr (ground (arith, h), ground (arith, h), ground (arith, h), ground (arith, h))

module _ (e : Env) (c : CallbackQuery) (w : World) (i : ℕ) (p : Post) (channel : SourceChannel)
    (may : authorized e c w.db ≡ true) (reads : c.data_id ≡ some i)
    (found : get_post i w.db ≡ some p)
    (has_channel : get_channel p.source_channel_id w.db ≡ some channel) where
  -- A press of Approve that may be made, where Telegram takes the answer and Redis is up, makes the post
  -- approved and queues one publish job at once, whatever becomes of the edit of the card.
  pub cb_approve_lem :
      (m : ℕ) (rest : List Reply)
      → w.replies ≡ Reply.delivered m ∷ rest
      → w.redis ≡ up
      → let w' = (cb_approve e c w).1 in
        (get_post i w'.db ≡ some (record p { state = PostState.approved }))
        × (w'.jobs ≡ w.jobs ++ (record { call = publish i; queue = bot; defer_by = none } ∷ []))
  unfolding cb_approve bot_call enqueue_job
  cb_approve_lem m rest answers redis = (
    ground (
      arith,
      may,
      reads,
      found,
      has_channel,
      answers,
      redis,
      kept db-IsOutside,
      get_post-update i (λ q. record q { state = PostState.approved }) w.db.posts p (λ q. refl)
          found,
    ),
    ground (arith, may, reads, found, has_channel, answers, redis, kept jobs-IsOutside),
  )
    where
      approved_db : Db
      approved_db =
          add_event i none EventAction.approved (inline c.from_user) w.now
            (update_post i (λ q. record q { state = PostState.approved }) w.db)

      before : World
      before = record w {
        db = approved_db;
        replies = rest;
        sent = w.sent ++ (answer_callback "Approved — publishing…" false ∷ []);
        pool = true;
        jobs = w.jobs ++ (record { call = publish i; queue = bot; defer_by = none } ∷ []);
      }

      kept :
          {V : Type 0} {view : World → V}
          → IsOutside view
          → view
              (refresh_card e c
                (record p { state = PostState.approved })
                channel
                p.draft_message_id
                approved_db
                before).1
            ≡ view before
      kept o =
          (refresh_card-Frames o e c (record p { state = PostState.approved }) channel
              p.draft_message_id approved_db).at
            before

  -- A press of Approve whose answer Telegram refuses, as it does for a button that was pressed too long
  -- ago, raises: the post is approved and no job is queued.
  pub cb_approve_unanswered :
      (x : Exn) (rest : List Reply)
      → w.replies ≡ Reply.refused x ∷ rest
      → let w' = (cb_approve e c w).1 in
        ((cb_approve e c w).0 ≡ err x)
        × (get_post i w'.db ≡ some (record p { state = PostState.approved }))
        × (w'.jobs ≡ w.jobs)
  unfolding cb_approve bot_call
  cb_approve_unanswered x rest refused = ground (
    arith,
    may,
    reads,
    found,
    has_channel,
    refused,
    get_post-update i (λ q. record q { state = PostState.approved }) w.db.posts p (λ q. refl) found,
  )
