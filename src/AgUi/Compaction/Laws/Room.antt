-- ===== src/AgUi/Compaction/Laws/Room.antt =====
-- That no round throws while the open streams of
-- packages/integrations/ag-ui/src/messages-compaction.ts have room for what is ahead of them.
use forge_room.Base.{
  ℕ, ◌+◌, ◌≤◌, String, Bool, true, not, ◌&&◌, ◌||◌, Option, some, if◌then◌else◌, List, [], ◌∷◌, leb,
  ◌==◌, string_eq, nat_eq_instance, ◌≡◌, refl, arith, and_true, Bool-cases, Option-cases, inl, inr,
}
use Prim.Native.String.{◌++◌ as join_text}
use forge_room.Base.Text.{text_length, text_length-append}
use forge_room.Base.ListLaws.{eq_self}
use forge_room.Orchestration.TurnQueue.{is_falsy, text_or_empty}
use forge_room.AgUi.Lanes.{Envelope}
use forge_room.AgUi.Compaction.{
  MessageEvent, text_start, text_content, text_end, other_event, ChannelEnvelope, MessageStream,
  OpenStreams, lookup_stream, Compaction, is_message_lane, stream_key, with_event, pass, on_start,
  on_content, on_end, is_snapshot, step_event,
}
use forge_room.AgUi.Compaction.Laws.Streams.{
  all_streams, lookup_stream-all, set_stream-all, delete_stream-all, all_streams_mono,
}

-- The length of what an event adds to the message of the key.
abbrev pub added_text : (key : String) → Envelope → MessageEvent → ℕ
added_text key lane (text_start id name) = 0
added_text key lane (text_content id delta) =
    if is_message_lane lane && stream_key lane id == key then text_length delta else 0
added_text key lane (text_end id) = 0
added_text key lane (other_event tag) = 0

-- The length of all texts that the channel has for the message of the key.
abbrev pub text_total : List ChannelEnvelope → (key : String) → ℕ
text_total [] key = 0
text_total (e ∷ es) key = added_text key e.lane e.event + text_total es key

-- A name that the schema accepts, or that is left out.
abbrev accepts_name : Option String → Bool
accepts_name name = is_falsy name || leb (text_length (text_or_empty name)) 128

module _ (is_opaque_id : String → Bool) where
  -- What the schemas of the events accept of the id and the name.
  abbrev pub accepts_event : MessageEvent → Bool
  accepts_event (text_start id name) = is_opaque_id id && accepts_name name
  accepts_event (text_content id delta) = is_opaque_id id
  accepts_event (text_end id) = is_opaque_id id
  accepts_event (other_event tag) = true

  -- The stream can be a snapshot after `ahead` further characters of its key.
  abbrev pub has_room : (ahead : String → ℕ) → String → MessageStream → Bool
  has_room ahead key stream =
      is_opaque_id stream.message_id
      && (accepts_name stream.name && leb (text_length stream.content + ahead key) 64000)

  abbrev Room : ℕ → MessageStream → Type 0
  Room ahead stream =
      (is_opaque_id stream.message_id ≡ true)
      × (accepts_name stream.name ≡ true)
      × (text_length stream.content + ahead ≤ 64000)

  room :
      (ahead : String → ℕ) (key : String) (stream : MessageStream)
      → has_room ahead key stream ≡ true
      → Room (ahead key) stream
  room ahead key stream h =
      let (opaque, rest) = and_true (is_opaque_id stream.message_id) _ h in
      let (named, short) = and_true (accepts_name stream.name) _ rest in
      (opaque, named, ground arith)

  roomy :
      (ahead : String → ℕ) (key : String) (stream : MessageStream)
      → Room (ahead key) stream
      → has_room ahead key stream ≡ true
  roomy ahead key stream (opaque, named, short) = rw (opaque, named) (ground arith)

  -- The stream of an event has room for what is ahead of it.
  with_event-Room :
      (ahead : String → ℕ) (streams : OpenStreams) (key id : String) (e : ChannelEnvelope)
      → all_streams (has_room ahead) streams ≡ true
      → is_opaque_id id ≡ true
      → ahead key ≤ 64000
      → Room (ahead key) (with_event (lookup_stream streams key) id e)
  unfolding text_length
  with_event-Room ahead streams key id e h opaque short =
      elim (Option-cases (lookup_stream streams key)) [
        | inl missing ↦ rw missing (opaque, refl, omega (arith, short))
        | inr (stream, found) ↦
            rw found (
              room ahead key stream (lookup_stream-all (has_room ahead) streams key stream h found))
      ]

  either_name :
      (name old : Option String)
      → accepts_name name ≡ true
      → accepts_name old ≡ true
      → accepts_name (if is_falsy name then old else name) ≡ true
  either_name name old h k = elim (Bool-cases (is_falsy name)) [
    | inl falsy ↦ rw falsy k
    | inr given ↦ rw given h
  ]

  on_start-all :
      (s : Compaction) (e : ChannelEnvelope) (key id : String) (name : Option String)
      (ahead : String → ℕ)
      → all_streams (has_room ahead) s.streams ≡ true
      → is_opaque_id id ≡ true
      → accepts_name name ≡ true
      → ahead key ≤ 64000
      → all_streams (has_room ahead) (on_start s e key id name).streams ≡ true
  unfolding on_start
  on_start-all s e key id name ahead h opaque named short =
      let (first, old_name, left) = with_event-Room ahead s.streams key id e h opaque short in
      let stream = with_event (lookup_stream s.streams key) id e in
      let shown : MessageStream = record stream {
        is_started = true;
        name = if is_falsy name then stream.name else name;
      } in
      set_stream-all (has_room ahead) s.streams key shown h
        (roomy ahead key shown (first, either_name name stream.name named old_name, left))

  on_content-all :
      (s : Compaction) (e : ChannelEnvelope) (key id delta : String) (ahead after : String → ℕ)
      → all_streams (has_room ahead) s.streams ≡ true
      → all_streams (has_room after) s.streams ≡ true
      → is_opaque_id id ≡ true
      → ahead key ≤ 64000
      → ahead key ≡ text_length delta + after key
      → all_streams (has_room after) (on_content s e key id delta).streams ≡ true
  unfolding on_content
  on_content-all s e key id delta ahead after h h' opaque short more =
      let stream = with_event (lookup_stream s.streams key) id e in
      let (first, named, left) = with_event-Room ahead s.streams key id e h opaque short in
      let shown : MessageStream = record stream { content = join_text stream.content delta } in
      set_stream-all (has_room after) s.streams key shown h' (
        roomy after key shown
          (first, named, omega (arith, left, more, text_length-append stream.content delta)))

  -- The round does not throw, and leaves open streams with room for what is ahead.
  abbrev pub Goes : (ahead : String → ℕ) → Option Compaction → Type 0
  Goes ahead next =
      (s' : Compaction) × (next ≡ some s') × (all_streams (has_room ahead) s'.streams ≡ true)

  on_end-Goes :
      (s : Compaction) (e : ChannelEnvelope) (key : String) (ahead : String → ℕ)
      → all_streams (has_room ahead) s.streams ≡ true
      → Goes ahead (on_end is_opaque_id s e key)
  unfolding on_end is_snapshot
  on_end-Goes s e key ahead h = elim (Option-cases (lookup_stream s.streams key)) [
    | inl missing ↦ rw (missing, on_end) (s, refl, h)
    | inr (stream, found) ↦
        let (opaque, named, short) =
          room ahead key stream (lookup_stream-all (has_room ahead) s.streams key stream h found) in
        let left = delete_stream-all (has_room ahead) s.streams key h in
        elim (Bool-cases (not stream.is_started || text_length stream.content == 0)) [
          | inl incomplete ↦ rw (found, incomplete, on_end) (_, refl, left)
          | inr complete ↦
              let good : is_snapshot is_opaque_id stream ≡ true = ground arith in
              rw (found, complete, good, on_end) (_, refl, left)
        ]
  ]

  pub event-Goes :
      (s : Compaction) (e : ChannelEnvelope) (event : MessageEvent) (after : String → ℕ)
      → accepts_event event ≡ true
      → ((key : String) → added_text key e.lane event + after key ≤ 64000)
      → all_streams (has_room (λ key. added_text key e.lane event + after key)) s.streams ≡ true
      → Goes after (step_event is_opaque_id s e event)
  unfolding pass
  event-Goes s e event after accepted short h = by_event event accepted short h (
      all_streams_mono (has_room (λ key. added_text key e.lane event + after key)) (has_room after)
        (λ key stream k.
          relax key stream (room (λ x. added_text x e.lane event + after x) key stream k))
        s.streams h)
    where
      relax :
          (key : String) (stream : MessageStream)
          → Room (added_text key e.lane event + after key) stream
          → has_room after key stream ≡ true
      relax key stream (opaque, named, left) =
          roomy after key stream (opaque, named, omega (arith, left))

      by_event :
          (event : MessageEvent)
          → accepts_event event ≡ true
          → ((key : String) → added_text key e.lane event + after key ≤ 64000)
          → all_streams (has_room (λ key. added_text key e.lane event + after key)) s.streams ≡ true
          → all_streams (has_room after) s.streams ≡ true
          → Goes after (step_event is_opaque_id s e event)
      by_event (other_event tag) accepted short h h' = (_, refl, refl)
      by_event (text_start id name) accepted short h h' =
          elim (Bool-cases (is_message_lane e.lane)) [
            | inr foreign ↦ rw foreign (_, refl, refl)
            | inl lane ↦
                let (opaque, named) = and_true (is_opaque_id id) _ accepted in
                let key = stream_key e.lane id in
                rw lane (
                  on_start s e key id name,
                  refl,
                  on_start-all s e key id name after h' opaque named (omega (arith, short key)),
                )
          ]
      by_event (text_content id delta) accepted short h h' =
          elim (Bool-cases (is_message_lane e.lane)) [
            | inr foreign ↦ rw foreign (_, refl, refl)
            | inl lane ↦
                let key = stream_key e.lane id in
                let more : added_text key e.lane (text_content id delta) + after key
                    ≡ text_length delta + after key =
                  rw (lane, eq_self key) refl in
                rw lane (
                  on_content s e key id delta,
                  refl,
                  on_content-all s e key id delta
                      (λ x. added_text x e.lane (text_content id delta) + after x) after h h'
                      accepted (short key) more,
                )
          ]
      by_event (text_end id) accepted short h h' = elim (Bool-cases (is_message_lane e.lane)) [
        | inr foreign ↦ rw foreign (_, refl, refl)
        | inl lane ↦ rw lane (on_end-Goes s e (stream_key e.lane id) after h')
      ]
