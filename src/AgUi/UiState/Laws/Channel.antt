-- ===== src/AgUi/UiState/Laws/Channel.antt =====
-- Deltas of the channel's state, for packages/integrations/ag-ui/src/ui-state-reducer.ts.
use forge_room.Base.{
  ℕ, ◌+◌, String, Bool, true, Option, some, List, [], ◌∷◌, ◌==◌, string_eq, nat_eq_instance,
  nat_eq_iff, ◌≡◌, ◌∙◌, ◌⊎◌, refl, sym, ap, none-some, some-injective, true-false, and_true,
  Bool-cases, Option-cases, inl, inr,
}
use forge_room.Base.Json.{Json, object, natural_number}
use forge_room.AgUi.Patch.{JsonPatchOp, Texts, parse_json_pointer, read_value, apply_json_patch}
use forge_room.AgUi.Lanes.{Envelope}
use forge_room.AgUi.Delta.{first_of, tested_revision, is_valid_revision_patch}
use forge_room.AgUi.Delta.Laws.{valid_patch_advances}
use forge_room.AgUi.UiState.{
  ChannelUiState, ThreadUiState, UiPresentationState, channel_delta, need_channel, show_channel,
  is_system_lane, is_valid_state_delta, patched_channel, apply_channel_delta, reduce_ui,
}

same_number : (a b : ℕ) → natural_number a ≡ natural_number b → a ≡ b
same_number a b h = cc

-- A valid patch for a revision tests that revision.
valid_tests :
    (patch : List JsonPatchOp) (revision : ℕ) (path : String)
    → is_valid_revision_patch patch (some revision) path ≡ true
    → tested_revision path (first_of patch) ≡ some revision
unfolding is_valid_revision_patch
valid_tests patch revision path valid =
    elim (Option-cases (tested_revision path (first_of patch))) [
      | inl untested ↦ absurd (true-false (sym (rw (untested, is_valid_revision_patch) at valid)))
      | inr (base, tested) ↦
          let (same, _) =
            and_true (base == revision) _ (rw (tested, is_valid_revision_patch) at valid) in
          let e : base ≡ revision = (nat_eq_iff base revision).0 same in rw e at tested
    ]

-- The channel is shown as it was, or a channel that was shown is shown at the next revision.
abbrev pub Advances : (before after : Option ChannelUiState) → Type 0
Advances before after =
    (after ≡ before)
    ⊎ ((old : ChannelUiState) × (new : ChannelUiState) × (before ≡ some old)
        × (after ≡ some new)
        × (new.revision ≡ old.revision + 1))

module _ (t : Texts) (parse_channel : Json → Option ChannelUiState)
    (parse_thread : Json → Option ThreadUiState)
    (pointer : parse_json_pointer t "/revision" ≡ some ("revision" ∷ []))
    (reads : (document : Json) (shown : ChannelUiState)
      → parse_channel document ≡ some shown
      → read_value t document ("revision" ∷ []) ≡ some (natural_number shown.revision)) where
  patched_revision :
      (current : ChannelUiState) (revision : ℕ) (patch : List JsonPatchOp) (shown : ChannelUiState)
      → is_valid_revision_patch patch (some revision) "/revision" ≡ true
      → patched_channel t parse_channel parse_thread current patch ≡ some shown
      → shown.revision ≡ revision + 1
  unfolding patched_channel
  patched_revision current revision patch shown valid h =
      elim (Option-cases (apply_json_patch t (object current.fields) patch)) [
        | inl failed ↦ absurd (none-some (rw (failed, patched_channel) at h))
        | inr (document, done) ↦
            let advanced =
              valid_patch_advances t patch (some revision) "/revision" ("revision" ∷ []) revision
                (object current.fields) document pointer (λ e. cc)
                (valid_tests patch revision "/revision" valid) valid done in
            let seen = reads document shown (rw (done, patched_channel) at h) in
            same_number shown.revision (revision + 1) (some-injective (sym seen ∙ advanced))
      ]

  shown_Advances :
      (s : UiPresentationState) (current shown : ChannelUiState) (revision : ℕ)
      → (current.revision == revision) ≡ true
      → shown.revision ≡ revision + 1
      → Advances (some current) (show_channel s shown).channel
  unfolding show_channel
  shown_Advances s current shown revision based next =
      let e : current.revision ≡ revision = (nat_eq_iff current.revision revision).0 based in
      inr (current, shown, refl, refl, next ∙ ap (λ n. n + 1) (sym e))

  -- A delta of the channel's state leaves what is shown, or replaces a shown state by one at the next
  -- revision; it neither shows a channel first nor takes one away. It is supposed that the pointer of the revision has the one segment, and that a state read from a
  -- document has the revision that the document has there.
  pub channel_delta-Advances :
      (s : UiPresentationState) (e : Envelope) (well_shaped : Bool) (revision : ℕ)
      (patch : List JsonPatchOp)
      → Advances s.channel
          (reduce_ui t parse_channel parse_thread s e
            (channel_delta well_shaped revision patch)).channel
  unfolding reduce_ui apply_channel_delta need_channel
  channel_delta-Advances s e well_shaped revision patch =
      elim (Bool-cases (is_valid_state_delta well_shaped revision patch)) [
        | inr bad ↦ simp (bad, reduce_ui) (inl refl)
        | inl good ↦ elim (Bool-cases s.need_channel_snapshot) [
          | inl latched ↦ simp (good, latched, reduce_ui, apply_channel_delta) (inl refl)
          | inr free ↦ elim (Bool-cases (is_system_lane e)) [
            | inr foreign ↦ simp (good, free, foreign, reduce_ui, apply_channel_delta) (inl refl)
            | inl own ↦ elim (Option-cases s.channel) [
              | inl missing ↦
                  simp (good, free, own, missing, reduce_ui, apply_channel_delta) (inl refl)
              | inr (current, here) ↦ elim (Bool-cases (current.revision == revision)) [
                | inr stale ↦
                    simp (good, free, own, here, stale, reduce_ui, apply_channel_delta) (inl refl)
                | inl based ↦
                    elim (Option-cases
                      (patched_channel t parse_channel parse_thread current patch)) [
                        | inl unpatched ↦
                            simp
                              (
                                good, free, own, here, based, unpatched, reduce_ui,
                                apply_channel_delta,
                              )
                              (inl refl)
                        | inr (shown, patched) ↦
                            simp
                              (
                                good, free, own, here, based, patched, reduce_ui,
                                apply_channel_delta,
                              )
                              (shown_Advances s current shown revision based (
                                patched_revision current revision patch shown
                                  (and_true well_shaped _ good).1 patched))
                      ]
              ]
            ]
          ]
        ]
      ]
