-- ===== src/Orchestration/TurnQueue.antt =====
-- packages/orchestration/src/turn-queue.ts: priorities, claims and generations of queued turns,
-- and from pause-group.ts what a paused session accepts.
pub mod Laws
mod Examples
use forge_room.Base.{
  ℕ, String, Bool, true, false, not, Option, none, some, if◌then◌else◌, ◌==◌, nat_eq_instance,
  string_eq, Eq, enum_eq, ◌&&◌,
}
use forge_room.Base.Int.{ℤ, sub_ℕ}

pub data TurnQueueInputType : Type 0 where
  normal pause_group_response component_interaction_response correction : TurnQueueInputType

unfoldable pub priority_for_input_type : TurnQueueInputType → ℕ
priority_for_input_type pause_group_response = 100
priority_for_input_type component_interaction_response = 50
priority_for_input_type correction = 10
priority_for_input_type normal = 0

pub data SessionClaimState : Type 0 where
  active rotating disabled : SessionClaimState

pub data ClaimEligibility : Type 0 where
  eligible session_rotating session_disabled session_busy : ClaimEligibility

unfoldable pub evaluate_claim_eligibility : SessionClaimState → Bool → ClaimEligibility
evaluate_claim_eligibility rotating busy = session_rotating
evaluate_claim_eligibility disabled busy = session_disabled
evaluate_claim_eligibility active true = session_busy
evaluate_claim_eligibility active false = eligible

-- A text or `null` is falsy if it is `null` or empty.
abbrev pub is_falsy : Option String → Bool
is_falsy none = true
is_falsy (some s) = s == ""

abbrev pub text_or_empty : Option String → String
text_or_empty none = ""
text_or_empty (some s) = s

abbrev is_normal : TurnQueueInputType → Bool
is_normal normal = true
is_normal _ = false

pub data Binding : Type 0 where
  bound_to : String → Binding
  missing_generation stale_generation : Binding

unfoldable pub resolve_claim_generation_binding :
    TurnQueueInputType → (bound current : Option String) → Binding
resolve_claim_generation_binding input_type bound current =
    if is_falsy current
    then missing_generation
    else if is_normal input_type
    then bound_to (text_or_empty current)
    else if is_falsy bound
    then missing_generation
    else if not (text_or_empty bound == text_or_empty current)
    then stale_generation
    else bound_to (text_or_empty bound)

pub record QueueItem : Type 0 where
  pub priority : ℕ
  pub fifo_sequence : ℕ

unfoldable pub compare_claim_order : QueueItem → QueueItem → ℤ
compare_claim_order a b =
    if not (a.priority == b.priority)
    then sub_ℕ b.priority a.priority
    else sub_ℕ a.fifo_sequence b.fifo_sequence

-- sessionAcceptsInputWhilePaused of pause-group.ts; `true` is `{ ok: true }`.
unfoldable pub session_accepts_input_while_paused :
    (has_unresolved_pause_group : Bool)
    → TurnQueueInputType
    → (is_linked_pause_correction : Bool) → Bool
session_accepts_input_while_paused false input_type linked = true
session_accepts_input_while_paused true pause_group_response linked = true
session_accepts_input_while_paused true correction true = true
session_accepts_input_while_paused true _ linked = false
