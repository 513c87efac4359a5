-- ===== src/AgUi/Patch/Laws/Sequence.antt =====
-- Patches one after another, for packages/integrations/ag-ui/src/json-patch.ts.
use forge_room.Base.{
  none-some, some-injective, ap, Option, none, some, List, [], ◌∷◌, ◌++◌, ◌≡◌, ◌≢◌, refl,
  Option-cases, inl, inr,
}
use forge_room.Base.Json.{Json, object, array, text, natural_number, other_number, boolean, null}
use forge_room.AgUi.Patch.{
  JsonPatchOp, Texts, unless_null, next_document, apply_one, apply_json_patch,
}

unless_null_kept : (d : Json) → d ≢ null → unless_null d ≡ some d
unless_null_kept null h = absurd (h refl)
unless_null_kept (object m) h = refl
unless_null_kept (array items) h = refl
unless_null_kept (text s) h = refl
unless_null_kept (natural_number n) h = refl
unless_null_kept (other_number s) h = refl
unless_null_kept (boolean b) h = refl

unless_null-some : (d e : Json) → unless_null d ≡ some e → e ≢ null
unless_null-some null e h = absurd (cc)
unless_null-some (object m) e h = λ n. cc
unless_null-some (array items) e h = λ n. cc
unless_null-some (text s) e h = λ n. cc
unless_null-some (natural_number k) e h = λ n. cc
unless_null-some (other_number s) e h = λ n. cc
unless_null-some (boolean b) e h = λ n. cc

abbrev pub then_patch : Texts → List JsonPatchOp → Option Json → Option Json
then_patch t patch none = none
then_patch t patch (some next) = apply_json_patch t next patch

module _ (t : Texts) where
  next_document-some :
      (d : Json) (op : JsonPatchOp) (e : Json) → next_document t d op ≡ some e → e ≢ null
  next_document-some d op e h = elim (Option-cases (apply_one t d op)) [
    | inl failed ↦ absurd (none-some (rw (failed, next_document) at h))
    | inr (next, done) ↦ unless_null-some next e (rw (done, next_document) at h)
  ]

-- A patch of two parts applied to a document other than `null` does what the first part does and
-- then, unless that fails, the second part on its result. It fails as a whole if either part does.
pub patch-append :
    (t : Texts) (document : Json) (first second : List JsonPatchOp)
    → document ≢ null
    → apply_json_patch t document (first ++ second)
      ≡ then_patch t second (apply_json_patch t document first)
unfolding apply_json_patch
patch-append t d [] second h = rw (unless_null_kept d h) refl
patch-append t d (op ∷ first) second h = elim (Option-cases (next_document t d op)) [
  | inl failed ↦ rw (failed, apply_json_patch) refl
  | inr (next, done) ↦
      rw (done, apply_json_patch)
        (patch-append t next first second (next_document-some t d op next done))
]

unless_null_same : (d e : Json) → unless_null d ≡ some e → d ≡ e
unless_null_same null e h = absurd (none-some h)
unless_null_same (object m) e h = some-injective h
unless_null_same (array items) e h = some-injective h
unless_null_same (text s) e h = some-injective h
unless_null_same (natural_number k) e h = some-injective h
unless_null_same (other_number s) e h = some-injective h
unless_null_same (boolean b) e h = some-injective h

-- A patch of one operation gives what the operation gives.
pub patch_one :
    (t : Texts) (document : Json) (op : JsonPatchOp) (result : Json)
    → apply_json_patch t document (op ∷ []) ≡ some result
    → apply_one t document op ≡ some result
unfolding apply_json_patch
patch_one t d op result h = elim (Option-cases (apply_one t d op)) [
  | inl failed ↦ absurd (none-some (rw (failed, next_document, apply_json_patch) at h))
  | inr (e, done) ↦ elim (Option-cases (unless_null e)) [
    | inl nothing ↦ absurd (none-some (rw (done, nothing, next_document, apply_json_patch) at h))
    | inr (next, kept) ↦
        let final = rw (done, kept, next_document, apply_json_patch) at h in
        rw (done, unless_null_same e next kept) (ap some (unless_null_same next result final))
  ]
]
