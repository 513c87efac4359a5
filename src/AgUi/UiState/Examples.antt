-- ===== src/AgUi/UiState/Examples.antt =====
-- A channel's state and events about it, for packages/integrations/ag-ui/src/ui-state-reducer.ts.
use forge_room.Base.{
  ℕ, true, false, Option, none, some, if◌then◌else◌, [], ◌∷◌, ◌==◌, string_eq, ap, ◌≡◌, refl,
  none-some, some-injective,
}
use forge_room.Base.Json.{
  Json, no_members, member, object, array, text, natural_number, other_number, boolean, null,
}
use forge_room.AgUi.Patch.{replace, test, Texts, parse_json_pointer, read_value}
use forge_room.AgUi.Lanes.{Envelope, coworker, system}
use forge_room.AgUi.UiState.{
  ChannelUiState, ThreadUiState, UiPresentationState, channel_delta, thread_snapshot,
  initial_ui_presentation_state, reduce_ui,
}
use forge_room.AgUi.UiState.Laws.Threads.{reduce_ui_all, lanes_keep_others}
use forge_room.AgUi.UiState.Laws.Channel.{Advances, channel_delta-Advances}

abbrev revision_texts : Texts
revision_texts = record {
  segments = λ s. if s == "/revision" then some ("revision" ∷ []) else none;
  index_of = λ s. none;
  text_of_index = λ n. "0";
  inherits = λ s. false;
  before = λ a b. true;
}

abbrev channel_at : ℕ → ChannelUiState
channel_at n = record {
  channel = "ch";
  revision = n;
  fields = member "revision" (natural_number n) no_members;
}

abbrev from_revision : Option Json → Option ChannelUiState
from_revision none = none
from_revision (some (natural_number n)) = some (channel_at n)
from_revision (some (object m)) = none
from_revision (some (array items)) = none
from_revision (some (text s)) = none
from_revision (some (other_number s)) = none
from_revision (some (boolean b)) = none
from_revision (some null) = none

abbrev channel_of : Json → Option ChannelUiState
channel_of document = from_revision (read_value revision_texts document ("revision" ∷ []))

from_revision_reads :
    (o : Option Json) (shown : ChannelUiState)
    → from_revision o ≡ some shown
    → o ≡ some (natural_number shown.revision)
from_revision_reads none shown h = absurd (none-some h)
from_revision_reads (some (natural_number n)) shown h =
    ap (λ (c : ChannelUiState). some (natural_number c.revision)) (some-injective h)
from_revision_reads (some (object m)) shown h = absurd (none-some h)
from_revision_reads (some (array items)) shown h = absurd (none-some h)
from_revision_reads (some (text s)) shown h = absurd (none-some h)
from_revision_reads (some (other_number s)) shown h = absurd (none-some h)
from_revision_reads (some (boolean b)) shown h = absurd (none-some h)
from_revision_reads (some null) shown h = absurd (none-some h)

channel_reads :
    (document : Json) (shown : ChannelUiState)
    → channel_of document ≡ some shown
    → read_value revision_texts document ("revision" ∷ []) ≡ some (natural_number shown.revision)
channel_reads document shown h =
    from_revision_reads (read_value revision_texts document ("revision" ∷ [])) shown h

revision_pointer : parse_json_pointer revision_texts "/revision" ≡ some ("revision" ∷ [])
unfolding parse_json_pointer
revision_pointer = refl

abbrev mina_thread : ThreadUiState
mina_thread = record {
  logical_thread_id = "l1";
  coworker_id = "c1";
  revision = 0;
  fields = no_members;
}

abbrev mina_thread_of : Json → Option ThreadUiState
mina_thread_of document = some mina_thread

abbrev system_lane : Envelope
system_lane = record {
  channel_id = "ch";
  actor_kind = system;
  coworker_id = none;
  logical_thread_id = none;
}

abbrev mina_lane : Envelope
mina_lane = record {
  channel_id = "ch";
  actor_kind = coworker;
  coworker_id = some "c1";
  logical_thread_id = some "l1";
}

abbrev with_channel : UiPresentationState
with_channel = record initial_ui_presentation_state { channel = some (channel_at 3) }

lanes_keep_others_example :
    (true ≡ true
      → (reduce_ui_all revision_texts channel_of mina_thread_of with_channel
          ((mina_lane, thread_snapshot true mina_thread) ∷ [])).channel
        ≡ some (channel_at 3))
    × (false ≡ true
        → (reduce_ui_all revision_texts channel_of mina_thread_of with_channel
            ((mina_lane, thread_snapshot true mina_thread) ∷ [])).threads
          ≡ λ id. none)
lanes_keep_others_example =
    lanes_keep_others revision_texts channel_of mina_thread_of with_channel
      ((mina_lane, thread_snapshot true mina_thread) ∷ [])

channel_delta-Advances_example :
    Advances
      (some (channel_at 3))
      (reduce_ui revision_texts channel_of mina_thread_of with_channel system_lane (
        channel_delta true 3 (
          test "/revision" (natural_number 3)
          ∷ replace "/revision" (natural_number 4)
          ∷ []))).channel
channel_delta-Advances_example =
    channel_delta-Advances revision_texts channel_of mina_thread_of revision_pointer channel_reads
      with_channel system_lane true 3
      (test "/revision" (natural_number 3) ∷ replace "/revision" (natural_number 4) ∷ [])
