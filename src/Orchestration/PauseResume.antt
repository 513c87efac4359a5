-- ===== src/Orchestration/PauseResume.antt =====
-- packages/orchestration/src/pause-resume.ts: who may resume a pause group.
pub mod Aliases
pub mod Laws
mod Examples
use forge_room.Base.{
  ℕ, String, Bool, true, false, not, Option, none, some, if◌then◌else◌, ◌==◌, nat_eq_instance,
  string_eq, List, [], ◌∷◌, includes, length, ◌&&◌, ◌||◌, Result, ok, err, ◌>>=◌,
}
use forge_room.Base.Json.{Json, Members, object, no_members, member}
use forge_room.Orchestration.TurnQueue.{is_falsy, text_or_empty}

pub record ActionAlias : Type 0 where
  pub required_action_id : String
  pub provider_action_id : String

pub data ResumeStatus : Type 0 where
  resolved cancelled : ResumeStatus

pub record AgUiResumeInterrupt : Type 0 where
  pub interrupt_id : String
  pub status : Option ResumeStatus
  pub payload : Option Json

pub data ResumeRefusal : Type 0 where
  empty_resume incomplete_group forged_interrupt partial_resume : ResumeRefusal
  payload_bypass expired cancelled_interrupt : ResumeRefusal

-- A `Map` of texts: the newest entry for a key stands first.
abbrev pub TextMap : Type 0
TextMap = List (String × String)

abbrev pub map_get : String → TextMap → Option String
map_get key [] = none
map_get key ((k, v) ∷ m) = let rest = map_get key m in if k == key then some v else rest

-- One alias of an action: an alias that names another action too is refused.
unfoldable pub add_alias : (alias required : String) → TextMap → Result ResumeRefusal TextMap
add_alias alias required m =
    let existing = map_get alias m in
    if not (is_falsy existing) && not (text_or_empty existing == required)
    then err forged_interrupt
    else ok ((alias, required) ∷ m)

unfoldable pub canonical_by_alias : TextMap → List ActionAlias → Result ResumeRefusal TextMap
unfolding add_alias
canonical_by_alias m [] = ok m
canonical_by_alias m (a ∷ actions) = do
  first ← add_alias a.required_action_id a.required_action_id m
  second ← add_alias a.provider_action_id a.required_action_id first
  canonical_by_alias second actions

abbrev pub forbidden_keys : List String
forbidden_keys =
    "decision" ∷ "approval" ∷ "status" ∷ "allow" ∷ "deny" ∷ "answer" ∷ "content" ∷ "arguments"
    ∷ "toolArguments" ∷ []

abbrev pub some_forbidden_key : Members → Bool
some_forbidden_key no_members = false
some_forbidden_key (member k v ps) = includes forbidden_keys k || some_forbidden_key ps

unfoldable pub has_decision_bypass_payload : Json → Bool
has_decision_bypass_payload (object ps) = some_forbidden_key ps
has_decision_bypass_payload _ = true

-- A payload that is absent or `null` is not looked at.
unfoldable pub bypasses : Option Json → Bool
unfolding has_decision_bypass_payload
bypasses none = false
bypasses (some Json.null) = false
bypasses (some payload) = has_decision_bypass_payload payload

abbrev pub is_cancelled : Option ResumeStatus → Bool
is_cancelled (some cancelled) = true
is_cancelled _ = false

-- The loop over the interrupts; the result is the set of the actions that they name.
unfoldable pub check_interrupts :
    TextMap → (seen : List String) → List AgUiResumeInterrupt → Result ResumeRefusal (List String)
unfolding bypasses
check_interrupts m seen [] = ok seen
check_interrupts m seen (item ∷ items) =
    let canonical = map_get item.interrupt_id m in
    let rest = check_interrupts m (text_or_empty canonical ∷ seen) items in
    if is_cancelled item.status
    then err cancelled_interrupt
    else if is_falsy canonical
    then err forged_interrupt
    else if includes seen (text_or_empty canonical)
    then err forged_interrupt
    else if bypasses item.payload
    then err payload_bypass
    else rest

abbrev pub is_empty_resume : List AgUiResumeInterrupt → Bool
is_empty_resume [] = true
is_empty_resume (_ ∷ _) = false

unfoldable pub authorize_ag_ui_pause_group_resume :
    List AgUiResumeInterrupt
    → List ActionAlias
    → (required_action_count : ℕ) → (ready is_expired : Bool) → Result ResumeRefusal (Unit {0})
unfolding canonical_by_alias check_interrupts
authorize_ag_ui_pause_group_resume resume actions count ready is_expired =
    if is_expired
    then err expired
    else if not ready
    then err incomplete_group
    else if is_empty_resume resume
    then err empty_resume
    else if not (length actions == count)
    then err incomplete_group
    else (do
      m ← canonical_by_alias [] actions
      seen ← check_interrupts m [] resume
      if not (length seen == count) then err partial_resume else ok tt)
