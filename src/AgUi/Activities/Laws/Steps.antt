-- ===== src/AgUi/Activities/Laws/Steps.antt =====
-- What one change of an entry keeps, for
-- packages/integrations/ag-ui/src/activity-reducer.ts.
use forge_room.Base.{
  ℕ, ◌≤◌, String, true, Option, none, some, List, ◌==◌, string_eq, nat_eq_instance, nat_eq_iff, ◌≡◌,
  refl, sym, arith, eq_iff, and_true, none-some, some-injective, Bool-cases, inl, inr, ◌⊎◌,
}
use mathlib.Core.Path.{subst}
use forge_room.Base.Json.{natural_number}
use forge_room.AgUi.Patch.{JsonPatchOp, add, remove, replace, test}
use forge_room.AgUi.Lanes.{Envelope, ActivityLaneOwner, owner_from_envelope}
use forge_room.AgUi.Delta.{
  ActivityContent, ActivityType, first_of, tested_revision, DeltaChecks, is_valid_revision_patch,
  is_valid_activity_delta,
}
use forge_room.AgUi.Delta.Laws.{revision_value-some}
use forge_room.AgUi.Activities.{
  ActivityEntry, ActivityPresentationState, mark_need_snapshot, store_entry, may_replace, is_number,
  tests_revision, may_patch,
}
use forge_room.AgUi.Activities.Laws.Identity.{same_owner_eq, identity_match_eq}

-- The entry `next` is of the lane and the activity of `previous`, at the same revision or later.
abbrev pub Continues : (previous next : ActivityEntry) → Type 0
Continues previous next =
    (previous.owner ≡ next.owner)
    × (previous.content.identity ≡ next.content.identity)
    × (previous.content.activity_revision ≤ next.content.activity_revision)

-- Each entry of the first state is in the second, or one that continues it, from the envelope's
-- lane, is.
abbrev pub AreContinued : Envelope → ActivityPresentationState → ActivityPresentationState → Type 0
AreContinued e s s' =
    (id : String) (previous : ActivityEntry)
    → s.activities id ≡ some previous
    → (next : ActivityEntry) × (s'.activities id ≡ some next)
      × ((previous ≡ next) ⊎ (Continues previous next × (next.owner ≡ owner_from_envelope e)))

pub mark_continued :
    (e : Envelope) (s : ActivityPresentationState) (id : String)
    → AreContinued e s (mark_need_snapshot s id)
unfolding mark_need_snapshot
mark_continued e s id k previous h = (previous, h, inl refl)

pub same_continued : (e : Envelope) (s : ActivityPresentationState) → AreContinued e s s
same_continued e s k previous h = (previous, h, inl refl)

pub store_continued :
    (e : Envelope) (s : ActivityPresentationState) (id : String) (entry : ActivityEntry)
    → ((previous : ActivityEntry) → s.activities id ≡ some previous → Continues previous entry)
    → entry.owner ≡ owner_from_envelope e
    → AreContinued e s (store_entry s id entry)
unfolding store_entry
store_continued e s id entry step own k previous h = elim (Bool-cases (id == k)) [
  | inl same ↦
      let here : id ≡ k = (eq_iff id k).0 same in
      (
        entry,
        rw same refl,
        inr (step previous (subst (λ x. s.activities x ≡ some previous) (sym here) h), own),
      )
  | inr other ↦ (previous, rw other h, inl refl)
]

pub replace_continued :
    (o : Option ActivityEntry) (content : ActivityContent) (owner : ActivityLaneOwner)
    → may_replace o content owner ≡ true
    → (previous : ActivityEntry) → o ≡ some previous
    → Continues previous record { content = content; owner = owner }
unfolding may_replace
replace_continued none content owner h previous e = absurd (none-some e)
replace_continued (some current) content owner h previous e =
    let (owners, rest) = and_true _ _ h in
    let (identities, later) = and_true _ _ rest in
    subst (λ p. Continues p record { content = content; owner = owner }) (some-injective e)
      (
        same_owner_eq current.owner owner owners,
        identity_match_eq current.content.identity content.identity identities,
        ground arith,
      )

pub same_number : (a b : ℕ) → natural_number a ≡ natural_number b → a ≡ b
same_number a b h = cc

pub tests_revision_base :
    (o : Option JsonPatchOp) (base revision : ℕ)
    → tested_revision "/activityRevision" o ≡ some base
    → tests_revision o revision ≡ true
    → base ≡ revision
unfolding tests_revision tested_revision
tests_revision_base none base revision h k = absurd (none-some h)
tests_revision_base (some (add p v)) base revision h k = absurd (none-some h)
tests_revision_base (some (remove p)) base revision h k = absurd (none-some h)
tests_revision_base (some (replace p v)) base revision h k = absurd (none-some h)
tests_revision_base (some (test p v)) base revision h k =
    let (path, number) = and_true (p == "/activityRevision") (is_number v revision) k in
    let same : v ≡ natural_number base =
      revision_value-some v base (rw (path, tested_revision) at h) in
    let counted = subst (λ w. is_number w revision ≡ true) same number in
    (nat_eq_iff base revision).0 counted

pub delta_valid :
    (d : DeltaChecks) (kind : ActivityType) (patch : List JsonPatchOp)
    → is_valid_activity_delta d kind patch ≡ true
    → is_valid_revision_patch patch none "/activityRevision" ≡ true
unfolding is_valid_activity_delta
delta_valid d kind patch h = (and_true _ _ (and_true _ _ h).1).0

pub may_patch_tests :
    (e : Envelope) (current : ActivityEntry) (kind : ActivityType) (patch : List JsonPatchOp)
    → may_patch e current kind patch ≡ true
    → tests_revision (first_of patch) current.content.activity_revision ≡ true
unfolding may_patch
may_patch_tests e current kind patch h = ground arith

pub may_patch_owner :
    (e : Envelope) (current : ActivityEntry) (kind : ActivityType) (patch : List JsonPatchOp)
    → may_patch e current kind patch ≡ true
    → current.owner ≡ owner_from_envelope e
unfolding may_patch
may_patch_owner e current kind patch h =
    same_owner_eq current.owner (owner_from_envelope e) (ground arith)
