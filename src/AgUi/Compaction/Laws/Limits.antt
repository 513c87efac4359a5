-- ===== src/AgUi/Compaction/Laws/Limits.antt =====
-- When the compaction of packages/integrations/ag-ui/src/messages-compaction.ts returns.
use forge_room.Base.{
  ◌≤◌, String, Bool, true, not, none, some, List, [], ◌∷◌, filter, all, string_eq, nat_eq_instance,
  ◌≡◌, ◌⊎◌, refl, sym, ◌∙◌, arith, none-some, and_true, Option-cases, inl, inr,
}
use forge_room.AgUi.Compaction.{
  ChannelEnvelope, Output, Compaction, start_compaction, compact_from, compact_channel_envelopes,
}
use forge_room.AgUi.Compaction.Laws.Streams.{all_streams}
use forge_room.AgUi.Compaction.Laws.Parts.{is_message, others}
use forge_room.AgUi.Compaction.Laws.Others.{others-compact_channel_envelopes}
use forge_room.AgUi.Compaction.Laws.Room.{text_total, accepts_event, has_room, event-Goes}

module _ (is_opaque_id : String → Bool) where
  -- The events are accepted, and no message has more than 64000 characters in the channel.
  abbrev pub Fits : List ChannelEnvelope → Type 0
  Fits es =
      (all (λ e. accepts_event is_opaque_id e.event) es ≡ true)
      × ((key : String) → text_total es key ≤ 64000)

  compact_from-returns :
      (s : Compaction) (es : List ChannelEnvelope)
      → Fits es
      → all_streams (has_room is_opaque_id (text_total es)) s.streams ≡ true
      → (output : List Output) × (compact_from is_opaque_id s es ≡ some output)
  unfolding compact_from
  compact_from-returns s [] fits h = (_, refl)
  compact_from-returns s (e ∷ es) (accepted, short) h =
      let (here, rest) = and_true (accepts_event is_opaque_id e.event) _ accepted in
      let (s', went, roomy') = event-Goes is_opaque_id s e e.event (text_total es) here short h in
      let (output, returned) =
        compact_from-returns s' es (rest, λ key. omega (arith, short key)) roomy' in
      (output, rw (went, compact_from) returned)

  -- The compaction returns if the schemas of the events accept them and no message of the channel has
  -- more than 64000 characters in all; whether or not it is so, what it returns has the envelopes
  -- that are not parts of a coworker's message, all of them and in their order.
  pub others_kept_in_order :
      (envelopes : List ChannelEnvelope)
      → ((output : List Output) × (compact_channel_envelopes is_opaque_id envelopes ≡ some output)
          × (others output ≡ filter (λ e. not (is_message e)) envelopes))
        ⊎ ((compact_channel_envelopes is_opaque_id envelopes ≡ none) × (¬ Fits envelopes))
  unfolding compact_channel_envelopes
  others_kept_in_order envelopes =
      elim (Option-cases (compact_channel_envelopes is_opaque_id envelopes)) [
        | inr (output, returned) ↦ inl (
          output,
          returned,
          others-compact_channel_envelopes is_opaque_id envelopes output returned,
        )
        | inl threw ↦ inr (
          threw,
          λ fits.
              let (output, returned) = compact_from-returns start_compaction envelopes fits refl in
              none-some (sym threw ∙ returned),
        )
      ]
