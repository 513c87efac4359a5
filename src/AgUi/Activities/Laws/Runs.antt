-- ===== src/AgUi/Activities/Laws/Runs.antt =====
-- Sequences of events, for packages/integrations/ag-ui/src/activity-reducer.ts.
use forge_room.Base.{
  String, true, not, Option, some, List, [], ◌∷◌, all, ◌≡◌, refl, sym, ◌∙◌, arith, inl, inr,
  true-false, and_true,
}
use mathlib.Core.Path.{subst}
use forge_room.Base.Json.{Json, natural_number}
use forge_room.AgUi.Patch.{Texts, parse_json_pointer, read_value}
use forge_room.AgUi.Lanes.{Envelope, owner_from_envelope, same_owner}
use forge_room.AgUi.Delta.{ActivityContent, DeltaChecks}
use forge_room.AgUi.Activities.{
  ActivityEntry, ActivityPresentationState, AguiEvent, reduce_activity,
}
use forge_room.AgUi.Activities.Laws.Steps.{Continues}
use forge_room.AgUi.Activities.Laws.Entries.{event_continued}
use forge_room.AgUi.Activities.Laws.Identity.{same_owner_self}

-- The state after a sequence of events.
unfoldable pub reduce_all :
    Texts
    → DeltaChecks
    → (Json → Option ActivityContent)
    → ActivityPresentationState
    → List (Envelope × AguiEvent)
    → ActivityPresentationState
reduce_all t d parse s [] = s
reduce_all t d parse s ((e, event) ∷ events) =
    reduce_all t d parse (reduce_activity t d parse s e event) events

module _ (t : Texts) (d : DeltaChecks) (parse_content : Json → Option ActivityContent)
    (pointer : parse_json_pointer t "/activityRevision" ≡ some ("activityRevision" ∷ []))
    (reads : (document : Json) (content : ActivityContent)
      → parse_content document ≡ some content
      → read_value t document ("activityRevision" ∷ [])
        ≡ some (natural_number content.activity_revision)) where
  -- An activity that is shown stays shown, whatever events follow: it keeps its lane and the fields
  -- that identify it, and its revision does not fall. It is supposed that the pointer of the
  -- revision has the one segment, and that a content read from a document has the revision that the
  -- document has there.
  pub activities_continue :
      (s : ActivityPresentationState) (events : List (Envelope × AguiEvent)) (id : String)
      (previous : ActivityEntry)
      → s.activities id ≡ some previous
      → (next : ActivityEntry) × ((reduce_all t d parse_content s events).activities id ≡ some next)
        × Continues previous next
  unfolding reduce_all
  activities_continue s [] id previous h = (previous, h, (refl, refl, omega arith))
  activities_continue s ((e, event) ∷ events) id previous h =
      let (middle, there, how) =
        event_continued t d parse_content pointer reads s e event id previous h in
      let (final, seen, (owners, identities, later)) =
        activities_continue (reduce_activity t d parse_content s e event) events id middle there in
      elim how [
        | inl same ↦
            (final, seen, subst (λ p. Continues p final) (sym same) (owners, identities, later))
        | inr ((owners', identities', later'), _) ↦
            (final, seen, (owners' ∙ owners, identities' ∙ identities, omega arith))
      ]

  -- Events of other lanes than the activity's leave it as it is, under the same suppositions.
  pub foreign_lanes_harmless :
      (s : ActivityPresentationState) (events : List (Envelope × AguiEvent)) (id : String)
      (entry : ActivityEntry)
      → s.activities id ≡ some entry
      → all
          (λ (p : Envelope × AguiEvent). not (same_owner entry.owner (owner_from_envelope p.0)))
          events
        ≡ true
      → (reduce_all t d parse_content s events).activities id ≡ some entry
  unfolding reduce_all
  foreign_lanes_harmless s [] id entry h foreign = h
  foreign_lanes_harmless s ((e, event) ∷ events) id entry h foreign =
      let (here, rest) = and_true _ _ foreign in
      let (next, there, how) =
        event_continued t d parse_content pointer reads s e event id entry h in
      let same : next ≡ entry = elim how [
        | inl kept ↦ sym kept
        | inr ((owners, _, _), own) ↦
            let mine =
              subst (λ o. same_owner entry.owner o ≡ true) (owners ∙ own)
                (same_owner_self entry.owner) in
            absurd (true-false (ground arith))
      ] in
      foreign_lanes_harmless (reduce_activity t d parse_content s e event) events id entry
        (subst (λ n. (reduce_activity t d parse_content s e event).activities id ≡ some n) same
          there)
        rest
