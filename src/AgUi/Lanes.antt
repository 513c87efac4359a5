-- ===== src/AgUi/Lanes.antt =====
-- The lanes of the reducers in packages/integrations/ag-ui/src (activity-reducer.ts and
-- tool-call-reducer.ts, which declare them alike). A map keyed by ids is a function; no id is the
-- name of a property that every object inherits.
use forge_room.Base.{
  String, Bool, true, false, ◌&&◌, Option, none, some, if◌then◌else◌, ◌==◌, string_eq,
}

pub data ActorKind : Type 0 where
  human coworker system native_subagent : ActorKind

abbrev pub same_kind : ActorKind → ActorKind → Bool
same_kind human human = true
same_kind coworker coworker = true
same_kind system system = true
same_kind native_subagent native_subagent = true
same_kind left right = false

-- What the reducers read of an envelope, but for its event; an id left out is `none`.
pub record Envelope : Type 0 where
  pub channel_id : String
  pub actor_kind : ActorKind
  pub coworker_id : Option String
  pub logical_thread_id : Option String

pub record ActivityLaneOwner : Type 0 where
  pub actor_kind : ActorKind
  pub coworker_id : Option String
  pub logical_thread_id : Option String

-- The text, if it is truthy.
abbrev pub truthy : Option String → Option String
truthy none = none
truthy (some s) = if s == "" then none else some s

abbrev pub same_option : Option String → Option String → Bool
same_option none none = true
same_option (some a) (some b) = a == b
same_option none (some b) = false
same_option (some a) none = false

unfoldable pub owner_from_envelope : Envelope → ActivityLaneOwner
owner_from_envelope e = record {
  actor_kind = e.actor_kind;
  coworker_id = truthy e.coworker_id;
  logical_thread_id = truthy e.logical_thread_id;
}

unfoldable pub same_owner : ActivityLaneOwner → ActivityLaneOwner → Bool
same_owner left right =
    same_kind left.actor_kind right.actor_kind
    && (same_option left.coworker_id right.coworker_id
        && same_option left.logical_thread_id right.logical_thread_id)

-- `{ ...entries, [key]: value }`
abbrev pub put {ℓ} : {A : Type ℓ} → (String → A) → (key : String) → A → (String → A)
put entries key value k = if key == k then value else entries k
