-- ===== src/Orchestration/PauseGroup/Laws/Redacted.antt =====
-- What the redaction leaves, for packages/orchestration/src/pause-group.ts.
use forge_room.Base.{String, if◌then◌else◌, ◌==◌, string_eq, ◌≡◌, refl, Bool-cases, inl, inr}
use forge_room.Base.Json.{
  Json, Members, no_members, member, Items, no_items, item, object, array, text, natural_number,
  other_number, boolean, null,
}
use forge_room.Orchestration.PauseGroup.Redaction.{
  ProviderTexts, redacted_text, is_forbidden_payload_key, redact_provider_required_action_text,
  redact_items, redact_members,
}

module _ (p : ProviderTexts) where
  unfoldable mutual
    -- Each text of the value is a redacted one, and a forbidden name has the marker only.
    pub IsRedacted : Json → Type 0
    IsRedacted (text s) = (raw : String) × (s ≡ p.redact raw)
    IsRedacted (array items) = AreRedactedItems items
    IsRedacted (object m) = AreRedactedMembers m
    IsRedacted (natural_number n) = Unit
    IsRedacted (other_number s) = Unit
    IsRedacted (boolean b) = Unit
    IsRedacted null = Unit

    pub AreRedactedItems : Items → Type 0
    AreRedactedItems no_items = Unit
    AreRedactedItems (item first others) = IsRedacted first × AreRedactedItems others

    pub AreRedactedMembers : Members → Type 0
    AreRedactedMembers no_members = Unit
    AreRedactedMembers (member key value others) =
        (if is_forbidden_payload_key p key then value ≡ text redacted_text else IsRedacted value)
        × AreRedactedMembers others

  mutual
    unfolding redact_provider_required_action_text IsRedacted

    value-IsRedacted : (v : Json) → IsRedacted (redact_provider_required_action_text p v)
    value-IsRedacted (text s) = (s, refl)
    value-IsRedacted (array items) = items-AreRedactedItems items
    value-IsRedacted (object m) = members-AreRedactedMembers m
    value-IsRedacted (natural_number n) = tt
    value-IsRedacted (other_number s) = tt
    value-IsRedacted (boolean b) = tt
    value-IsRedacted null = tt

    items-AreRedactedItems : (items : Items) → AreRedactedItems (redact_items p items)
    items-AreRedactedItems no_items = tt
    items-AreRedactedItems (item first others) =
        (value-IsRedacted first, items-AreRedactedItems others)

    members-AreRedactedMembers : (m : Members) → AreRedactedMembers (redact_members p m)
    members-AreRedactedMembers no_members = tt
    members-AreRedactedMembers (member key value others) =
        let here = value-IsRedacted value in
        let rest = members-AreRedactedMembers others in
        elim (Bool-cases (key == "__proto__")) [
          | inl dropped ↦ rw dropped rest
          | inr kept ↦ elim (Bool-cases (is_forbidden_payload_key p key)) [
            | inl forbidden ↦ rw (kept, forbidden) (refl, rest)
            | inr allowed ↦ rw (kept, allowed) (here, rest)
          ]
        ]

-- In what the redaction returns, at any depth, each property with a forbidden name has the marker
-- "[REDACTED]" as its value, and each other text is the redaction of one.
pub redaction_hides :
    (p : ProviderTexts) (value : Json) → IsRedacted p (redact_provider_required_action_text p value)
redaction_hides p value = value-IsRedacted p value
