-- ===== src/AgUi/Compaction/Examples.antt =====
-- Runs of packages/integrations/ag-ui/src/messages-compaction.ts.
use forge_room.Base.{
  Bool, false, String, ◌==◌, string_eq, ◌⊎◌, not, ℕ, none, some, List, [], ◌∷◌, ◌≡◌, refl,
}
use forge_room.AgUi.Lanes.{Envelope, coworker}
use forge_room.Base.Text.{text_length}
use forge_room.AgUi.Compaction.{
  Output, is_snapshot, MessageEvent, text_start, text_content, text_end, other_event,
  ChannelEnvelope, compact_channel_envelopes, kept, folded, compact_from, pass, on_start,
  on_content, on_end,
}
use forge_room.AgUi.Compaction.Laws.Limits.{Fits, others_kept_in_order}
use forge_room.AgUi.Compaction.Laws.Parts.{others}

abbrev lane : Envelope
lane = record {
  channel_id = "c";
  actor_kind = coworker;
  coworker_id = some "iris";
  logical_thread_id = some "t";
}

abbrev at_lane : ℕ → MessageEvent → ChannelEnvelope
at_lane n e = record { lane = lane; sequence = n; event = e }

-- A tool call splits the first message.
abbrev channel : List ChannelEnvelope
channel =
    at_lane 1 (text_start "m" none)
    ∷ at_lane 2 (text_content "m" "hello")
    ∷ at_lane 3 (other_event "TOOL_CALL_START")
    ∷ at_lane 4 (text_start "n" none)
    ∷ at_lane 5 (text_content "n" "done")
    ∷ at_lane 6 (text_end "n")
    ∷ []

abbrev named_id : String → Bool
named_id id = not (id == "")

others_kept_in_order_example :
    ((output : List Output) × (compact_channel_envelopes named_id channel ≡ some output)
      × (others output ≡ at_lane 3 (other_event "TOOL_CALL_START") ∷ []))
    ⊎ ((compact_channel_envelopes named_id channel ≡ none) × (¬ Fits named_id channel))
others_kept_in_order_example = others_kept_in_order named_id channel

-- The first message's parts stand as they were; the second is one snapshot in its first envelope.
channel_run :
    compact_channel_envelopes named_id channel
    ≡ some (
        kept (at_lane 1 (text_start "m" none))
        ∷ kept (at_lane 2 (text_content "m" "hello"))
        ∷ kept (at_lane 3 (other_event "TOOL_CALL_START"))
        ∷ folded (at_lane 4 (text_start "n" none)) "n" "done" none
        ∷ [])
unfolding compact_channel_envelopes compact_from pass on_start on_content on_end is_snapshot
    text_length
channel_run = refl

-- A snapshot that its schema refuses ends the whole compaction.
refused_run : compact_channel_envelopes (λ id. false) channel ≡ none
unfolding compact_channel_envelopes compact_from pass on_start on_content on_end is_snapshot
    text_length
refused_run = refl

-- The end of a message that is not open is lost, where the comment says that it is preserved.
stray_end_run : compact_channel_envelopes named_id (at_lane 1 (text_end "m") ∷ []) ≡ some []
unfolding compact_channel_envelopes compact_from on_end
stray_end_run = refl
