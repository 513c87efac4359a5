-- ===== src/AgUi/Compaction/Laws/Parts.antt =====
-- Which envelopes are parts of a coworker's message, for
-- packages/integrations/ag-ui/src/messages-compaction.ts.
use forge_room.Base.{
  nat_eq_instance, Bool, true, false, if◌then◌else◌, List, [], ◌∷◌, ◌++◌, all, string_eq, ◌≡◌, refl,
  arith,
}
use forge_room.AgUi.Lanes.{Envelope}
use forge_room.AgUi.Compaction.{
  MessageEvent, text_start, text_content, text_end, other_event, ChannelEnvelope, Output, kept,
  folded, is_message_lane, kept_events,
}

abbrev pub is_part : Envelope → MessageEvent → Bool
is_part lane (text_start id name) = is_message_lane lane
is_part lane (text_content id delta) = is_message_lane lane
is_part lane (text_end id) = is_message_lane lane
is_part lane (other_event tag) = false

-- A part of a message's text, from a coworker's lane.
abbrev pub is_message : ChannelEnvelope → Bool
is_message e = is_part e.lane e.event

-- The envelopes that are kept and are not parts of a message.
abbrev pub others : List Output → List ChannelEnvelope
others [] = []
others (kept e ∷ rest) = let more = others rest in if is_message e then more else e ∷ more
others (folded first id content name ∷ rest) = others rest

pub others-append : (xs ys : List Output) → others (xs ++ ys) ≡ others xs ++ others ys
others-append [] ys = refl
others-append (kept e ∷ xs) ys = ground (arith, others-append xs ys)
others-append (folded first id content name ∷ xs) ys = others-append xs ys

pub others-kept :
    (es : List ChannelEnvelope) → all is_message es ≡ true → others (kept_events es) ≡ []
others-kept [] h = refl
others-kept (e ∷ es) h = ground (arith, others-kept es)

pub all-append :
    (es : List ChannelEnvelope) (e : ChannelEnvelope)
    → all is_message es ≡ true
    → is_message e ≡ true
    → all is_message (es ++ (e ∷ [])) ≡ true
all-append [] e h k = ground arith
all-append (x ∷ es) e h k = ground (arith, all-append es e)
