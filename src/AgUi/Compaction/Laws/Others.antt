-- ===== src/AgUi/Compaction/Laws/Others.antt =====
-- What packages/integrations/ag-ui/src/messages-compaction.ts does to the envelopes that are not parts
-- of a coworker's message.
use forge_room.Base.{
  none, none-some, nat_eq_instance, String, Bool, true, false, not, ◌||◌, Option, some,
  if◌then◌else◌, List, [], ◌∷◌, ◌++◌, filter, all, ◌==◌, string_eq, ◌≡◌, refl, sym, ap, ◌∙◌, arith,
  some-injective, none-some, Bool-cases, Option-cases, inl, inr,
}
use mathlib.Core.List.{append_assoc, append-nil}
use forge_room.Base.Text.{text_length}
use forge_room.AgUi.Compaction.Laws.Streams.{
  all_streams, lookup_stream-all, set_stream-all, delete_stream-all,
}
use forge_room.AgUi.Compaction.{
  MessageEvent, text_start, text_content, text_end, other_event, ChannelEnvelope, Output, kept,
  folded, MessageStream, OpenStreams, lookup_stream, Compaction, start_compaction, is_message_lane,
  stream_key, kept_events, flushed, with_event, pass, on_start, on_content, on_end, is_snapshot,
  step_event, compact_from, compact_channel_envelopes,
}
use forge_room.AgUi.Compaction.Laws.Parts.{
  is_part, is_message, others, others-append, others-kept, all-append,
}

abbrev of_messages : String → MessageStream → Bool
of_messages key stream = all is_message stream.events

-- All events of the open streams are parts of messages.
abbrev holds_messages : OpenStreams → Bool
holds_messages = all_streams of_messages

others-flushed :
    (streams : OpenStreams) → holds_messages streams ≡ true → others (flushed streams) ≡ []
others-flushed [] h = refl
others-flushed ((k, stream) ∷ streams) h = ground (
  arith,
  others-append (kept_events stream.events) (flushed streams),
  others-kept stream.events,
  others-flushed streams,
)

with_event-messages :
    (streams : OpenStreams) (key id : String) (e : ChannelEnvelope)
    → holds_messages streams ≡ true
    → is_message e ≡ true
    → all is_message (with_event (lookup_stream streams key) id e).events ≡ true
with_event-messages streams key id e h k = elim (Option-cases (lookup_stream streams key)) [
  | inl missing ↦ rw missing (ground arith)
  | inr (stream, found) ↦
      rw found
        (all-append stream.events e (lookup_stream-all of_messages streams key stream h found) k)
]

-- What a round of the loop adds to the others, with the streams still of messages.
abbrev Adds : Compaction → List ChannelEnvelope → Compaction → Type 0
Adds s added s' = (others s'.output ≡ others s.output ++ added) × (holds_messages s'.streams ≡ true)

pass-Adds :
    (s : Compaction) (e : ChannelEnvelope)
    → holds_messages s.streams ≡ true
    → is_message e ≡ false
    → Adds s (e ∷ []) (pass s e)
unfolding pass
pass-Adds s e h other = (
  rw
      (
        others-append s.output (flushed s.streams ++ (kept e ∷ [])),
        others-append (flushed s.streams) (kept e ∷ []),
        others-flushed s.streams h,
        other,
      )
      refl,
  refl,
)

on_start-Adds :
    (s : Compaction) (e : ChannelEnvelope) (key id : String) (name : Option String)
    → holds_messages s.streams ≡ true
    → is_message e ≡ true
    → Adds s [] (on_start s e key id name)
unfolding on_start
on_start-Adds s e key id name h m = (
  sym (append-nil (others s.output)),
  set_stream-all of_messages s.streams key _ h (with_event-messages s.streams key id e h m),
)

on_content-Adds :
    (s : Compaction) (e : ChannelEnvelope) (key id delta : String)
    → holds_messages s.streams ≡ true
    → is_message e ≡ true
    → Adds s [] (on_content s e key id delta)
unfolding on_content
on_content-Adds s e key id delta h m = (
  sym (append-nil (others s.output)),
  set_stream-all of_messages s.streams key _ h (with_event-messages s.streams key id e h m),
)

-- So much, of a round that does not throw.
abbrev MayAdd : Compaction → List ChannelEnvelope → Option Compaction → Type 0
MayAdd s added none = Unit
MayAdd s added (some s') = Adds s added s'

abbrev added_by : ChannelEnvelope → List ChannelEnvelope
added_by e = if is_message e then [] else e ∷ []

module _ (is_opaque_id : String → Bool) where
  on_end-MayAdd :
      (s : Compaction) (e : ChannelEnvelope) (key : String)
      → holds_messages s.streams ≡ true
      → is_message e ≡ true
      → MayAdd s [] (on_end is_opaque_id s e key)
  unfolding on_end
  on_end-MayAdd s e key h m = elim (Option-cases (lookup_stream s.streams key)) [
    | inl missing ↦ rw (missing, on_end) (sym (append-nil (others s.output)), h)
    | inr (stream, found) ↦
        let events = lookup_stream-all of_messages s.streams key stream h found in
        elim (Bool-cases (not stream.is_started || text_length stream.content == 0)) [
          | inl incomplete ↦
              rw (found, incomplete, on_end)
                (
                  rw
                      (
                        others-append s.output (kept_events (stream.events ++ (e ∷ []))),
                        others-kept (stream.events ++ (e ∷ []))
                            (all-append stream.events e events m),
                      )
                      refl,
                  delete_stream-all of_messages s.streams key h,
                )
          | inr complete ↦ elim (Bool-cases (is_snapshot is_opaque_id stream)) [
            | inr throws ↦ rw (found, complete, throws, on_end) tt
            | inl good ↦
                rw (found, complete, good, on_end)
                  (
                    others-append s.output
                        (folded stream.first stream.message_id stream.content stream.name ∷ []),
                    delete_stream-all of_messages s.streams key h,
                  )
          ]
        ]
  ]

  event-MayAdd :
      (s : Compaction) (e : ChannelEnvelope) (event : MessageEvent)
      → holds_messages s.streams ≡ true
      → e.event ≡ event
      → MayAdd s (added_by e) (step_event is_opaque_id s e event)
  event-MayAdd s e (other_event tag) h p =
      let q : is_message e ≡ false = ap (is_part e.lane) p in rw q (pass-Adds s e h q)
  event-MayAdd s e (text_start id name) h p = elim (Bool-cases (is_message_lane e.lane)) [
    | inl lane ↦
        let q : is_message e ≡ true = ap (is_part e.lane) p ∙ lane in
        rw (q, lane) (on_start-Adds s e (stream_key e.lane id) id name h q)
    | inr foreign ↦
        let q : is_message e ≡ false = ap (is_part e.lane) p ∙ foreign in
        rw (q, foreign) (pass-Adds s e h q)
  ]
  event-MayAdd s e (text_content id delta) h p = elim (Bool-cases (is_message_lane e.lane)) [
    | inl lane ↦
        let q : is_message e ≡ true = ap (is_part e.lane) p ∙ lane in
        rw (q, lane) (on_content-Adds s e (stream_key e.lane id) id delta h q)
    | inr foreign ↦
        let q : is_message e ≡ false = ap (is_part e.lane) p ∙ foreign in
        rw (q, foreign) (pass-Adds s e h q)
  ]
  event-MayAdd s e (text_end id) h p = elim (Bool-cases (is_message_lane e.lane)) [
    | inl lane ↦
        let q : is_message e ≡ true = ap (is_part e.lane) p ∙ lane in
        rw (q, lane) (on_end-MayAdd s e (stream_key e.lane id) h q)
    | inr foreign ↦
        let q : is_message e ≡ false = ap (is_part e.lane) p ∙ foreign in
        rw (q, foreign) (pass-Adds s e h q)
  ]

  others-compact_from :
      (s : Compaction) (es : List ChannelEnvelope) (output : List Output)
      → holds_messages s.streams ≡ true
      → compact_from is_opaque_id s es ≡ some output
      → others output ≡ others s.output ++ filter (λ e. not (is_message e)) es
  unfolding compact_from
  others-compact_from s [] output h returned =
      ap others (sym (some-injective returned))
      ∙ others-append s.output (flushed s.streams)
      ∙ ap (λ xs. others s.output ++ xs) (others-flushed s.streams h)
  others-compact_from s (e ∷ es) output h returned =
      stepped (step_event is_opaque_id s e e.event) refl (event-MayAdd s e e.event h refl)
        (λ s' held went. others-compact_from s' es output held went)
    where
      stepped :
          (next : Option Compaction)
          → step_event is_opaque_id s e e.event ≡ next
          → MayAdd s (added_by e) next
          → ((s' : Compaction)
              → holds_messages s'.streams ≡ true
              → compact_from is_opaque_id s' es ≡ some output
              → others output ≡ others s'.output ++ filter (λ x. not (is_message x)) es)
          → others output ≡ others s.output ++ filter (λ x. not (is_message x)) (e ∷ es)
      stepped none threw added later = absurd (none-some (rw (threw, compact_from) at returned))
      stepped (some s') went (out, held) later =
          let rest =
            later s' held (rw (went, compact_from) at returned)
            ∙ ap (λ xs. xs ++ filter (λ x. not (is_message x)) es) out in
          elim (Bool-cases (is_message e)) [
            | inl m ↦
                rest
                ∙ rw m (
                    ap (λ xs. xs ++ filter (λ x. not (is_message x)) es)
                      (append-nil (others s.output)))
            | inr o ↦
                rest
                ∙ rw o
                    (append_assoc (others s.output) (e ∷ []) (filter (λ x. not (is_message x)) es))
          ]

  -- A compaction that returns keeps the envelopes that are not parts of a coworker's message, all of
  -- them and in their order.
  pub others-compact_channel_envelopes :
      (envelopes : List ChannelEnvelope) (output : List Output)
      → compact_channel_envelopes is_opaque_id envelopes ≡ some output
      → others output ≡ filter (λ e. not (is_message e)) envelopes
  unfolding compact_channel_envelopes
  others-compact_channel_envelopes envelopes output =
      others-compact_from start_compaction envelopes output refl
