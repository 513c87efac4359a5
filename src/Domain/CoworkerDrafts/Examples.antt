-- ===== src/Domain/CoworkerDrafts/Examples.antt =====
-- A research coworker, for packages/domain/src/coworkers/resolver.ts.
use forge_room.Base.{
  ℕ, zero, suc, ap, arith, String, true, false, some, [], ◌∷◌, map, any, includes, ◌≡◌, ◌≢◌, refl,
  string_eq,
}
use Prim.Native.String.{◌++◌, count}
use text.Mathlib.TextLemmas.{length-append}
use forge_room.Domain.CoworkerDrafts.{
  CoworkerDraftProposal, read, read_only, is_read_only, research_read_tool_slug, wants_github_read,
  is_reserved_coworker_handle, unique_handle, resolve_coworker_draft,
}
use forge_room.Domain.CoworkerDrafts.Laws.{unique_handle_found, draft_grants_bounded}

abbrev research : CoworkerDraftProposal
research = record {
  display_name = "team";
  requested_channels = "ch1" ∷ "ch9" ∷ [];
  requested_connections = record { connector = "github"; effects = read ∷ [] } ∷ [];
  requested_knowledge_scopes = [];
  requested_memory_scopes = [];
  requested_record_capabilities = [];
  approval_intent = read_only;
  sandbox_requested = false;
  native_subagents_requested = false;
}

-- A number as a text of as many strokes.
unfoldable strokes : ℕ → String
strokes zero = ""
strokes (suc n) = "i" ++ strokes n

count-strokes : (n : ℕ) → count (strokes n) ≡ n
unfolding strokes
count-strokes zero = refl
count-strokes (suc n) = omega (arith, length-append "i" (strokes n), count-strokes n)

abbrev numbered_name : String → ℕ → String
numbered_name base n = base ++ strokes (suc n)

strokes_numbered : (base : String) (m n : ℕ) → numbered_name base m ≡ numbered_name base n → m ≡ n
strokes_numbered base m n h = omega (
  arith,
  ap count h,
  length-append base (strokes (suc m)),
  length-append base (strokes (suc n)),
  count-strokes (suc m),
  count-strokes (suc n),
)

strokes_new : (base : String) (n : ℕ) → numbered_name base n ≢ base
strokes_new base n h =
    omega (arith, ap count h, length-append base (strokes (suc n)), count-strokes (suc n))

unique_handle_found_example :
    (handle : String) × (unique_handle (λ s. s) numbered_name "team" ("teamiii" ∷ []) ≡ some handle)
    × (is_reserved_coworker_handle (λ s. s) numbered_name handle ≡ false)
    × (includes (map (λ (s : String). s) ("teamiii" ∷ [])) handle ≡ false)
unique_handle_found_example =
    unique_handle_found (λ s. s) numbered_name "team" (strokes_numbered "team") (strokes_new "team")
      ("teamiii" ∷ [])

draft_grants_bounded_example :
    ((tool : String)
      → includes
          (resolve_coworker_draft
            (λ s. s)
            (λ s. s)
            numbered_name
            research
            ("ch1" ∷ [])
            []).tool_grants
          tool
        ≡ true
      → (tool ≡ research_read_tool_slug)
        × (is_read_only research.approval_intent ≡ true)
        × (any wants_github_read research.requested_connections ≡ true))
    × ((channel : String)
        → includes
            (resolve_coworker_draft
              (λ s. s)
              (λ s. s)
              numbered_name
              research
              ("ch1" ∷ [])
              []).channel_ids
            channel
          ≡ true
        → includes ("ch1" ∷ []) channel ≡ true)
draft_grants_bounded_example =
    draft_grants_bounded (λ s. s) (λ s. s) numbered_name research ("ch1" ∷ []) []
