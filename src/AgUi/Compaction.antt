-- ===== src/AgUi/Compaction.antt =====
-- packages/integrations/ag-ui/src/messages-compaction.ts, and of packages/contracts/src/events.ts
-- what `persistedMessagesSnapshotEventSchema.parse` checks of a snapshot; which ids it accepts is a
-- parameter. `none` is an exception of that check, which ends the whole compaction. The `Map` of open streams is the list of its entries in order.
pub mod Laws
mod Examples
use forge_room.Base.{
  ℕ, String, Bool, true, false, not, ◌&&◌, ◌||◌, Option, none, some, if◌then◌else◌, List, [], ◌∷◌,
  ◌++◌, leb, nat_eq_instance, map, flat_map, ◌==◌, string_eq,
}
use Prim.Native.String.{◌++◌ as join_text}
use forge_room.Base.Text.{text_length}
use forge_room.Orchestration.TurnQueue.{is_falsy, text_or_empty}
use forge_room.AgUi.Lanes.{ActorKind, coworker, same_kind, Envelope}

pub data MessageEvent : Type 0 where
  text_start : (id : String) (name : Option String) → MessageEvent
  text_content : (id delta : String) → MessageEvent
  text_end : (id : String) → MessageEvent
  other_event : (tag : String) → MessageEvent

pub record ChannelEnvelope : Type 0 where
  pub lane : Envelope
  pub sequence : ℕ
  pub event : MessageEvent

-- An envelope that is pushed as it is, or a message's snapshot in its first envelope.
pub data Output : Type 0 where
  kept : ChannelEnvelope → Output
  folded : (first : ChannelEnvelope) (id content : String) (name : Option String) → Output

pub record MessageStream : Type 0 where
  pub message_id : String
  pub name : Option String
  pub content : String
  pub is_started : Bool
  pub first : ChannelEnvelope
  pub events : List ChannelEnvelope

abbrev pub OpenStreams : Type 0
OpenStreams = List (String × MessageStream)

abbrev pub lookup_stream : OpenStreams → String → Option MessageStream
lookup_stream [] key = none
lookup_stream ((k, stream) ∷ open_) key =
    let rest = lookup_stream open_ key in if k == key then some stream else rest

abbrev pub set_stream : OpenStreams → String → MessageStream → OpenStreams
set_stream [] key stream = (key, stream) ∷ []
set_stream ((k, old) ∷ open_) key stream =
    let rest = (k, old) ∷ set_stream open_ key stream in
    if k == key then (k, stream) ∷ open_ else rest

abbrev pub delete_stream : OpenStreams → String → OpenStreams
delete_stream [] key = []
delete_stream ((k, old) ∷ open_) key =
    let rest = (k, old) ∷ delete_stream open_ key in if k == key then open_ else rest

pub record Compaction : Type 0 where
  pub output : List Output
  pub streams : OpenStreams

abbrev pub start_compaction : Compaction
start_compaction = record { output = []; streams = [] }

abbrev pub is_message_lane : Envelope → Bool
is_message_lane e =
    same_kind e.actor_kind coworker
    && (not (is_falsy e.coworker_id) && not (is_falsy e.logical_thread_id))

abbrev pub stream_key : Envelope → (message_id : String) → String
stream_key e id = join_text e.channel_id (
    join_text ":" (
      join_text (text_or_empty e.coworker_id)
        (join_text ":" (join_text (text_or_empty e.logical_thread_id) (join_text ":" id)))))

abbrev pub kept_events : List ChannelEnvelope → List Output
kept_events = map kept

-- The events of all open streams, in order.
abbrev pub flushed : OpenStreams → List Output
flushed = flat_map λ p. kept_events (p.1).events

abbrev pub new_stream : String → ChannelEnvelope → MessageStream
new_stream id e = record {
  message_id = id;
  name = none;
  content = "";
  is_started = false;
  first = e;
  events = [];
}

-- The stream of the event, with the event.
abbrev pub with_event : Option MessageStream → String → ChannelEnvelope → MessageStream
with_event none id e = record (new_stream id e) { events = e ∷ [] }
with_event (some stream) id e = record stream { events = stream.events ++ (e ∷ []) }

-- An event that is not of a message ends all open streams.
unfoldable pub pass : Compaction → ChannelEnvelope → Compaction
pass s e = record { output = s.output ++ (flushed s.streams ++ (kept e ∷ [])); streams = [] }

unfoldable pub on_start :
    Compaction → ChannelEnvelope → (key id : String) → (name : Option String) → Compaction
on_start s e key id name =
    let stream = with_event (lookup_stream s.streams key) id e in
    record s {
      streams =
          set_stream s.streams key (record stream {
            is_started = true;
            name = if is_falsy name then stream.name else name;
          });
    }

unfoldable pub on_content : Compaction → ChannelEnvelope → (key id delta : String) → Compaction
on_content s e key id delta =
    let stream = with_event (lookup_stream s.streams key) id e in
    record s {
      streams =
          set_stream s.streams key (record stream { content = join_text stream.content delta });
    }

module _ (is_opaque_id : String → Bool) where
  -- `persistedMessagesSnapshotEventSchema` on the snapshot of the stream; a falsy name is left out.
  unfoldable pub is_snapshot : MessageStream → Bool
  is_snapshot stream =
      is_opaque_id stream.message_id
      && (leb 1 (text_length stream.content) && leb (text_length stream.content) 64000)
      && (is_falsy stream.name || leb (text_length (text_or_empty stream.name)) 128)

  -- A stream that is not open is not in the `Map`, so that nothing is flushed for it.
  unfoldable pub on_end : Compaction → ChannelEnvelope → (key : String) → Option Compaction
  on_end s e key = elim (lookup_stream s.streams key) [
    | none ↦ some s
    | some stream ↦
        if not stream.is_started || text_length stream.content == 0
        then some (record {
          output = s.output ++ kept_events (stream.events ++ (e ∷ []));
          streams = delete_stream s.streams key;
        })
        else if not (is_snapshot stream)
        then none
        else some (record {
          output =
              s.output ++ (folded stream.first stream.message_id stream.content stream.name ∷ []);
          streams = delete_stream s.streams key;
        })
  ]

  abbrev pub step_event : Compaction → ChannelEnvelope → MessageEvent → Option Compaction
  step_event s e (text_start id name) =
      if is_message_lane e.lane
      then some (on_start s e (stream_key e.lane id) id name)
      else some (pass s e)
  step_event s e (text_content id delta) =
      if is_message_lane e.lane
      then some (on_content s e (stream_key e.lane id) id delta)
      else some (pass s e)
  step_event s e (text_end id) =
      if is_message_lane e.lane then on_end s e (stream_key e.lane id) else some (pass s e)
  step_event s e (other_event tag) = some (pass s e)

  unfoldable pub compact_from : Compaction → List ChannelEnvelope → Option (List Output)
  compact_from s [] = some (s.output ++ flushed s.streams)
  compact_from s (e ∷ envelopes) = elim (step_event s e e.event) [
    | none ↦ none
    | some next ↦ compact_from next envelopes
  ]

  unfoldable pub compact_channel_envelopes : List ChannelEnvelope → Option (List Output)
  compact_channel_envelopes = compact_from start_compaction
