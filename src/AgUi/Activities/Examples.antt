-- ===== src/AgUi/Activities/Examples.antt =====
-- A shown task and events about it, for packages/integrations/ag-ui/src/activity-reducer.ts.
use forge_room.Base.{
  ℕ, true, false, Option, none, some, if◌then◌else◌, [], ◌∷◌, ◌==◌, string_eq, ap, ◌≡◌, refl,
  none-some, some-injective,
}
use forge_room.Base.Json.{
  Json, no_members, member, object, array, text, natural_number, other_number, boolean, null,
}
use forge_room.AgUi.Patch.{replace, test, Texts, parse_json_pointer, read_value}
use forge_room.AgUi.Lanes.{Envelope, coworker, owner_from_envelope, same_owner}
use forge_room.AgUi.Delta.{task_record, task_record_v1, ActivityContent, DeltaChecks}
use forge_room.AgUi.Activities.{
  ActivityEntry, ActivityPresentationState, AguiEvent, activity_snapshot, activity_delta,
}
use forge_room.AgUi.Activities.Laws.Steps.{Continues}
use forge_room.AgUi.Activities.Laws.Runs.{reduce_all, activities_continue, foreign_lanes_harmless}

abbrev revision_texts : Texts
revision_texts = record {
  segments = λ s. if s == "/activityRevision" then some ("activityRevision" ∷ []) else none;
  index_of = λ s. none;
  text_of_index = λ n. "0";
  inherits = λ s. false;
  before = λ a b. true;
}

abbrev lenient_checks : DeltaChecks
lenient_checks = record {
  segments = λ s. none;
  value_allowed = λ k op. true;
  coherent = λ k ops. true;
}

abbrev task_content : ℕ → ActivityContent
task_content n = record {
  identity = task_record "t1";
  activity_revision = n;
  fields = member "activityRevision" (natural_number n) no_members;
}

abbrev from_revision : Option Json → Option ActivityContent
from_revision none = none
from_revision (some (natural_number n)) = some (task_content n)
from_revision (some (object m)) = none
from_revision (some (array items)) = none
from_revision (some (text s)) = none
from_revision (some (other_number s)) = none
from_revision (some (boolean b)) = none
from_revision (some null) = none

abbrev task_of : Json → Option ActivityContent
task_of document = from_revision (read_value revision_texts document ("activityRevision" ∷ []))

from_revision_reads :
    (o : Option Json) (content : ActivityContent)
    → from_revision o ≡ some content
    → o ≡ some (natural_number content.activity_revision)
from_revision_reads none content h = absurd (none-some h)
from_revision_reads (some (natural_number n)) content h =
    ap (λ (c : ActivityContent). some (natural_number c.activity_revision)) (some-injective h)
from_revision_reads (some (object m)) content h = absurd (none-some h)
from_revision_reads (some (array items)) content h = absurd (none-some h)
from_revision_reads (some (text s)) content h = absurd (none-some h)
from_revision_reads (some (other_number s)) content h = absurd (none-some h)
from_revision_reads (some (boolean b)) content h = absurd (none-some h)
from_revision_reads (some null) content h = absurd (none-some h)

task_reads :
    (document : Json) (content : ActivityContent)
    → task_of document ≡ some content
    → read_value revision_texts document ("activityRevision" ∷ [])
      ≡ some (natural_number content.activity_revision)
task_reads document content h =
    from_revision_reads (read_value revision_texts document ("activityRevision" ∷ [])) content h

revision_pointer :
    parse_json_pointer revision_texts "/activityRevision" ≡ some ("activityRevision" ∷ [])
unfolding parse_json_pointer
revision_pointer = refl

abbrev mina_lane : Envelope
mina_lane = record {
  channel_id = "ch";
  actor_kind = coworker;
  coworker_id = some "c1";
  logical_thread_id = some "l1";
}

abbrev oren_lane : Envelope
oren_lane = record {
  channel_id = "ch";
  actor_kind = coworker;
  coworker_id = some "c2";
  logical_thread_id = some "l2";
}

abbrev shown_task : ActivityEntry
shown_task = record {
  content = task_content 3;
  owner = record { actor_kind = coworker; coworker_id = some "c1"; logical_thread_id = some "l1" };
}

abbrev one_task : ActivityPresentationState
one_task = record {
  activities = λ id. if id == "m1" then some shown_task else none;
  need_activity_snapshots = λ id. false;
}

abbrev advance : AguiEvent
advance = activity_delta (some "m1") true task_record_v1 (
    test "/activityRevision" (natural_number 3)
    ∷ replace "/activityRevision" (natural_number 4)
    ∷ [])

abbrev seize : AguiEvent
seize =
    activity_snapshot (some "m1") true
      (object (member "activityRevision" (natural_number 9) no_members))

activities_continue_example :
    (next : ActivityEntry) × ((reduce_all revision_texts lenient_checks task_of one_task
          ((mina_lane, advance) ∷ (oren_lane, seize) ∷ [])).activities
        "m1"
      ≡ some next)
    × Continues shown_task next
activities_continue_example =
    activities_continue revision_texts lenient_checks task_of revision_pointer task_reads one_task
      ((mina_lane, advance) ∷ (oren_lane, seize) ∷ []) "m1" shown_task refl

foreign_lanes_harmless_example :
    (reduce_all revision_texts lenient_checks task_of one_task ((oren_lane, seize) ∷ [])).activities
      "m1"
    ≡ some shown_task
unfolding owner_from_envelope same_owner
foreign_lanes_harmless_example =
    foreign_lanes_harmless revision_texts lenient_checks task_of revision_pointer task_reads
      one_task ((oren_lane, seize) ∷ []) "m1" shown_task refl refl
