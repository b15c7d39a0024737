-- ===== src/Enums.antt =====
-- shared/enums.py: the enumerations, and the ranks of the roles. A member's string value is its name;
-- `==` on members is by position, as the members of one enumeration are distinct.
use telegram_cms.Prelude.{ℕ, Text, codes, Bool, true, false, leb, ◌==◌, any, List}

pub data Role : Type 0 where
  editor admin super_admin : Role

pub data Policy : Type 0 where
  auto queue : Policy

pub data PostState : Type 0 where
  pending approved scheduled published rejected publishing publish_failed : PostState

pub data AiMode : Type 0 where
  off translate summarize retone custom : AiMode

pub data EventAction : Type 0 where
  ingested edited approved rejected scheduled published publish_failed duplicate : EventAction
  media_omitted draft_posted ai_transformed ai_failed : EventAction

pub data MediaType : Type 0 where
  photo video document audio animation voice video_note : MediaType

-- `ROLE_RANK`
abbrev pub role_rank : Role → ℕ
role_rank Role.editor = 0
role_rank Role.admin = 1
role_rank Role.super_admin = 2

abbrev pub role_at_least : Role → Role → Bool
role_at_least held required = leb (role_rank required) (role_rank held)

abbrev pub role_eq : Role → Role → Bool
role_eq a b = role_rank a == role_rank b

abbrev pub state_index : PostState → ℕ
state_index PostState.pending = 0
state_index PostState.approved = 1
state_index PostState.scheduled = 2
state_index PostState.published = 3
state_index PostState.rejected = 4
state_index PostState.publishing = 5
state_index PostState.publish_failed = 6

abbrev pub state_eq : PostState → PostState → Bool
state_eq a b = state_index a == state_index b

-- `state in {…}`
abbrev pub state_in : PostState → List PostState → Bool
state_in s = any (λ t. state_eq s t)

abbrev action_index : EventAction → ℕ
action_index EventAction.ingested = 0
action_index EventAction.edited = 1
action_index EventAction.approved = 2
action_index EventAction.rejected = 3
action_index EventAction.scheduled = 4
action_index EventAction.published = 5
action_index EventAction.publish_failed = 6
action_index EventAction.duplicate = 7
action_index EventAction.media_omitted = 8
action_index EventAction.draft_posted = 9
action_index EventAction.ai_transformed = 10
action_index EventAction.ai_failed = 11

abbrev pub action_eq : EventAction → EventAction → Bool
action_eq a b = action_index a == action_index b

abbrev pub is_auto : Policy → Bool
is_auto Policy.auto = true
is_auto Policy.queue = false

abbrev pub is_off : AiMode → Bool
is_off AiMode.off = true
is_off _ = false

-- The `value` of a media type: a file name and a fingerprint hold it.
abbrev pub media_value : MediaType → Text
media_value MediaType.photo = codes "photo"
media_value MediaType.video = codes "video"
media_value MediaType.document = codes "document"
media_value MediaType.audio = codes "audio"
media_value MediaType.animation = codes "animation"
media_value MediaType.voice = codes "voice"
media_value MediaType.video_note = codes "video_note"
