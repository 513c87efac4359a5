-- ===== src/AgUi/Activities/Laws/Entries.antt =====
-- The entries of the activities over a sequence of events, for
-- packages/integrations/ag-ui/src/activity-reducer.ts.
use forge_room.Base.{
  ◌+◌, String, Bool, true, false, ◌&&◌, Option, none, some, List, [], ◌∷◌, ◌==◌, string_eq,
  nat_eq_instance, ◌≡◌, refl, sym, ◌∙◌, arith, true-false, and_true, none-some, some-injective,
  Bool-cases, Option-cases, inl, inr,
}
use mathlib.Core.Path.{subst}
use forge_room.Base.Json.{Json, natural_number}
use forge_room.AgUi.Patch.{JsonPatchOp, Texts, parse_json_pointer, read_value, apply_json_patch}
use forge_room.AgUi.Lanes.{Envelope, owner_from_envelope}
use forge_room.AgUi.Delta.{
  ActivityContent, ActivityType, document_of, first_of, tested_revision, DeltaChecks,
  is_valid_revision_patch, is_valid_activity_delta,
}
use forge_room.AgUi.Delta.Laws.{valid_patch_advances}
use forge_room.AgUi.Activities.{
  ActivityEntry, ActivityPresentationState, AguiEvent, activity_snapshot, activity_delta,
  other_event, identity_fields_match, envelope_owns_content, may_replace, tests_revision, may_patch,
  reduce_snapshot, patched_content, patch_entry, reduce_delta, reduce_activity,
}
use forge_room.AgUi.Activities.Laws.Identity.{identity_match_eq}
use forge_room.AgUi.Activities.Laws.Steps.{
  Continues, AreContinued, mark_continued, same_continued, store_continued, replace_continued,
  tests_revision_base, same_number, delta_valid, may_patch_tests, may_patch_owner,
}

module _ (t : Texts) (d : DeltaChecks) (parse_content : Json → Option ActivityContent)
    (pointer : parse_json_pointer t "/activityRevision" ≡ some ("activityRevision" ∷ []))
    (reads : (document : Json) (content : ActivityContent)
      → parse_content document ≡ some content
      → read_value t document ("activityRevision" ∷ [])
        ≡ some (natural_number content.activity_revision)) where
  -- A content to which a delta of its revision is applied is at the next revision.
  patched_revision :
      (current : ActivityContent) (patch : List JsonPatchOp) (content : ActivityContent)
      → is_valid_revision_patch patch none "/activityRevision" ≡ true
      → tests_revision (first_of patch) current.activity_revision ≡ true
      → patched_content t d parse_content current patch ≡ some content
      → content.activity_revision ≡ current.activity_revision + 1
  unfolding patched_content is_valid_revision_patch
  patched_revision current patch content valid tests h =
      elim (Option-cases (apply_json_patch t (document_of current) patch)) [
        | inl failed ↦ absurd (none-some (rw (failed, patched_content) at h))
        | inr (document, done) ↦
            elim (Option-cases (tested_revision "/activityRevision" (first_of patch))) [
              | inl untested ↦
                  absurd (true-false (sym (rw (untested, is_valid_revision_patch) at valid)))
              | inr (base, tested) ↦
                  let advanced =
                    valid_patch_advances t patch none "/activityRevision" ("activityRevision" ∷ [])
                      base (document_of current) document pointer (λ e. cc) tested valid done in
                  let seen = reads document content (rw (done, patched_content) at h) in
                  let base_is =
                    tests_revision_base (first_of patch) base current.activity_revision tested
                      tests in
                  let final =
                    same_number content.activity_revision (base + 1)
                      (some-injective (sym seen ∙ advanced)) in
                  rw base_is at final
            ]
      ]

  patch_continued :
      (e : Envelope) (s : ActivityPresentationState) (id : String) (current : ActivityEntry)
      (patch : List JsonPatchOp)
      → s.activities id ≡ some current
      → current.owner ≡ owner_from_envelope e
      → is_valid_revision_patch patch none "/activityRevision" ≡ true
      → tests_revision (first_of patch) current.content.activity_revision ≡ true
      → AreContinued e s (patch_entry t d parse_content s id current patch)
  unfolding patch_entry
  patch_continued e s id current patch here own valid tests =
      elim (Option-cases (patched_content t d parse_content current.content patch)) [
        | inl failed ↦ rw (failed, patch_entry) (mark_continued e s id)
        | inr (content, done) ↦
            elim (Bool-cases (identity_fields_match current.content.identity content.identity)) [
              | inr other ↦ rw (done, other, patch_entry) (mark_continued e s id)
              | inl same ↦
                  rw (done, same, patch_entry)
                    (store_continued e s id record { content = content; owner = current.owner }
                      (λ previous there.
                        let same_entry = some-injective (sym here ∙ there) in
                        subst (λ p. Continues p record { content = content; owner = current.owner })
                          same_entry
                          (
                            refl,
                            identity_match_eq current.content.identity content.identity same,
                            omega (
                              arith,
                              patched_revision current.content patch content valid tests done,
                            ),
                          ))
                      own)
            ]
      ]

  delta_continued :
      (s : ActivityPresentationState) (e : Envelope) (id : String) (well_shaped : Bool)
      (kind : ActivityType) (patch : List JsonPatchOp)
      → AreContinued e s (reduce_delta t d parse_content s e id well_shaped kind patch)
  unfolding reduce_delta
  delta_continued s e id well_shaped kind patch = elim (Bool-cases (s.need_activity_snapshots id)) [
    | inl latched ↦ rw (latched, reduce_delta) (same_continued e s)
    | inr free ↦ elim (Bool-cases (well_shaped && is_valid_activity_delta d kind patch)) [
      | inr bad ↦ rw (free, bad, reduce_delta) (mark_continued e s id)
      | inl good ↦ elim (Option-cases (s.activities id)) [
        | inl missing ↦ rw (free, good, missing, reduce_delta) (mark_continued e s id)
        | inr (current, here) ↦ elim (Bool-cases (may_patch e current kind patch)) [
          | inr foreign ↦ rw (free, good, here, foreign, reduce_delta) (mark_continued e s id)
          | inl own ↦
              rw (free, good, here, own, reduce_delta)
                (patch_continued e s id current patch here
                  (may_patch_owner e current kind patch own)
                  (delta_valid d kind patch (and_true _ _ good).1)
                  (may_patch_tests e current kind patch own))
        ]
      ]
    ]
  ]

  snapshot_continued :
      (s : ActivityPresentationState) (e : Envelope) (id : String) (well_shaped : Bool)
      (document : Json)
      → AreContinued e s (reduce_snapshot t d parse_content s e id well_shaped document)
  unfolding reduce_snapshot
  snapshot_continued s e id false document = mark_continued e s id
  snapshot_continued s e id true document = elim (Option-cases (parse_content document)) [
    | inl failed ↦ rw (failed, reduce_snapshot) (mark_continued e s id)
    | inr (content, parsed) ↦ elim (Bool-cases (envelope_owns_content e content.identity)) [
      | inr foreign ↦ rw (parsed, foreign, reduce_snapshot) (mark_continued e s id)
      | inl own ↦
          elim (Bool-cases (may_replace (s.activities id) content (owner_from_envelope e))) [
            | inr stale ↦ rw (parsed, own, stale, reduce_snapshot) (mark_continued e s id)
            | inl fresh ↦
                rw (parsed, own, fresh, reduce_snapshot)
                  (store_continued e s id
                    record { content = content; owner = owner_from_envelope e }
                    (λ previous there.
                      replace_continued (s.activities id) content (owner_from_envelope e) fresh
                        previous there)
                    refl)
          ]
    ]
  ]

  pub event_continued :
      (s : ActivityPresentationState) (e : Envelope) (event : AguiEvent)
      → AreContinued e s (reduce_activity t d parse_content s e event)
  unfolding reduce_activity
  event_continued s e (activity_snapshot none w document) = same_continued e s
  event_continued s e (activity_snapshot (some id) w document) =
      snapshot_continued s e id w document
  event_continued s e (activity_delta none w kind patch) = same_continued e s
  event_continued s e (activity_delta (some id) w kind patch) = elim (Bool-cases (id == "")) [
    | inl empty ↦ rw (empty, reduce_activity) (same_continued e s)
    | inr named ↦ rw (named, reduce_activity) (delta_continued s e id w kind patch)
  ]
  event_continued s e other_event = same_continued e s
