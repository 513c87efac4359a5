-- ===== src/Orchestration/ContextDelivery.antt =====
-- packages/orchestration/src/context-envelope.ts: how far a built envelope delivers the channel, and
-- the cursor that a created turn advances.
pub mod Laws
mod Examples
use forge_room.Base.{
  String, ℕ, suc, ◌+◌, ◌-◌, Bool, true, false, not, List, [], ◌∷◌, ◌++◌, filter, sort, map, leb,
  ltb, ◌==◌, nat_eq_instance, if◌then◌else◌, ◌||◌,
}

-- The loop over the pending sequences: it stops at the first gap.
unfoldable pub deliver_contiguous : (delivered_through : ℕ) → List ℕ → ℕ
deliver_contiguous delivered [] = delivered
deliver_contiguous delivered (sequence ∷ rest) =
    let later = deliver_contiguous sequence rest in
    if not (sequence == delivered + 1) then delivered else later

-- `sequences` are those of the deltas of the envelope.
unfoldable pub envelope_delivered_through_sequence : (sequences : List ℕ) → (last_delivered : ℕ) → ℕ
unfolding deliver_contiguous
envelope_delivered_through_sequence sequences last_delivered =
    deliver_contiguous last_delivered (sort leb (filter (λ s. ltb last_delivered s) sequences))

pub data TurnCreationStatus : Type 0 where
  confirmed reconciled pending uncertain failed : TurnCreationStatus

pub data CursorReason : Type 0 where
  advanced turn_not_confirmed sequence_not_forward invalid_sequence : CursorReason

-- A number of the language: a natural number, or any other by the text that it prints as.
pub data Number : Type 0 where
  natural : ℕ → Number
  other_number : String → Number

pub record DeliveryCursorAdvanceResult : Type 0 where
  pub is_advanced : Bool
  pub next_sequence : Number
  pub reason : CursorReason

abbrev pub is_settled : TurnCreationStatus → Bool
is_settled confirmed = true
is_settled reconciled = true
is_settled _ = false

-- The guards behind the check that both numbers are integers and not negative.
abbrev pub advance_cursor :
    (current delivered : ℕ) → TurnCreationStatus → DeliveryCursorAdvanceResult
advance_cursor current delivered turn_creation =
    if not (is_settled turn_creation)
    then record {
      is_advanced = false;
      next_sequence = natural current;
      reason = turn_not_confirmed;
    }
    else if leb delivered current
    then record {
      is_advanced = false;
      next_sequence = natural current;
      reason = sequence_not_forward;
    }
    else record { is_advanced = true; next_sequence = natural delivered; reason = advanced }

unfoldable pub next_delivery_cursor :
    (current delivered_through : Number) → TurnCreationStatus → DeliveryCursorAdvanceResult
next_delivery_cursor (natural current) (natural delivered) turn_creation =
    advance_cursor current delivered turn_creation
next_delivery_cursor current delivered turn_creation = record {
  is_advanced = false;
  next_sequence = current;
  reason = invalid_sequence;
}

-- What the service answers: a refusal, the cursor left where it is, or the write that it asks the
-- store for.
pub data CursorAnswer : Type 0 where
  envelope_beyond_channel delivered_beyond_envelope delivered_beyond_channel : CursorAnswer
  left_unchanged : CursorReason → CursorAnswer
  written : (next_sequence : Number) → CursorAnswer

-- apps/api/src/workspace/service.ts, advanceSessionDeliveryCursor, for a session and a channel that
-- are found; `next_sequence` is the next free sequence of the channel.
unfoldable pub advance_session_delivery_cursor :
    (cursor next_sequence : ℕ) (sequences : List ℕ) (delivered : ℕ)
    → TurnCreationStatus
    → CursorAnswer
advance_session_delivery_cursor cursor next_sequence sequences delivered turn_creation =
    let max_delivered = next_sequence - 1 in
    let envelope_cap = envelope_delivered_through_sequence sequences cursor in
    let decision = next_delivery_cursor (natural cursor) (natural delivered) turn_creation in
    if ltb max_delivered envelope_cap
    then envelope_beyond_channel
    else if ltb envelope_cap delivered
    then delivered_beyond_envelope
    else if ltb max_delivered delivered
    then delivered_beyond_channel
    else if not decision.is_advanced
    then left_unchanged decision.reason
    else written decision.next_sequence
