-- ===== src/Domain/CoworkerDrafts.antt =====
-- packages/domain/src/coworkers/resolver.ts and the reserved handles of
-- packages/contracts/src/coworkers.ts. `slugify` gives the base of the handle, `lower` is
-- `toLowerCase` and `with_suffix base n` is the text base_n. The digest, the dates and the encoding
-- of the draft are left out; a denial is a value, not its text.
pub mod Laws
mod Examples
use forge_room.Base.{
  ℕ, suc, zero, ◌+◌, String, Bool, true, false, not, ◌&&◌, ◌||◌, Option, none, some, if◌then◌else◌,
  List, [], ◌∷◌, ◌++◌, map, length, filter, any, includes, ltb, ◌==◌, string_eq,
}

pub data ConnectionEffect : Type 0 where
  read write destructive : ConnectionEffect

pub data ApprovalIntent : Type 0 where
  read_only approve_writes approve_all_tools : ApprovalIntent

pub record RequestedConnection : Type 0 where
  pub connector : String
  pub effects : List ConnectionEffect

-- What the resolver reads of a proposal, but for the texts that it only copies.
pub record CoworkerDraftProposal : Type 0 where
  pub display_name : String
  pub requested_channels : List String
  pub requested_connections : List RequestedConnection
  pub requested_knowledge_scopes : List String
  pub requested_memory_scopes : List String
  pub requested_record_capabilities : List String
  pub approval_intent : ApprovalIntent
  pub sandbox_requested : Bool
  pub native_subagents_requested : Bool

pub data Denial : Type 0 where
  intent_limited destructive_tools new_account_connection native_subagents : Denial
  knowledge_memory_workflow web_data knowledge_scopes memory_scopes workflow_records : Denial
  native_subagents_asked sandbox : Denial
  write_tool : (tool : String) → Denial
  unavailable_tool : (tool : String) → Denial
  connection_effects : (connector : String) → Denial

abbrev pub reserved_coworker_handles : List String
reserved_coworker_handles = "team" ∷ []

abbrev pub research_read_tool_slug : String
research_read_tool_slug = "GITHUB_GET_AN_ISSUE"

abbrev pub write_tool_denials : List String
write_tool_denials = "GITHUB_ADD_LABELS_TO_AN_ISSUE" ∷ "GITHUB_REMOVE_A_LABEL_FROM_AN_ISSUE" ∷ []

abbrev pub is_read : ConnectionEffect → Bool
is_read read = true
is_read write = false
is_read destructive = false

abbrev pub is_read_only : ApprovalIntent → Bool
is_read_only read_only = true
is_read_only approve_writes = false
is_read_only approve_all_tools = false

module _ (lower : String → String) (with_suffix : String → ℕ → String) where
  unfoldable pub is_reserved_coworker_handle : String → Bool
  is_reserved_coworker_handle handle = includes reserved_coworker_handles (lower handle)

  abbrev pub is_taken : (lowered : List String) → (candidate : String) → Bool
  is_taken lowered candidate =
      is_reserved_coworker_handle candidate || includes lowered (lower candidate)

  -- The loop, for at most `fuel` candidates.
  unfoldable pub find_handle :
      (base : String)
      → (lowered : List String) → (fuel suffix : ℕ) → (candidate : String) → Option String
  find_handle base lowered zero suffix candidate = none
  find_handle base lowered (suc fuel) suffix candidate =
      let later = find_handle base lowered fuel (suffix + 1) (with_suffix base suffix) in
      if is_taken lowered candidate then later else some candidate

  -- One candidate more than there are handles that are taken.
  unfoldable pub unique_handle : (base : String) → (existing_handles : List String) → Option String
  unique_handle base existing =
      find_handle base (map lower existing)
        (suc (length reserved_coworker_handles + length existing)) 2 base

abbrev pub wants_github_read : RequestedConnection → Bool
wants_github_read c = c.connector == "github" && any is_read c.effects

unfoldable pub resolve_tools : CoworkerDraftProposal → List String
resolve_tools proposal =
    if not (is_read_only proposal.approval_intent)
    then []
    else if not (any wants_github_read proposal.requested_connections)
    then []
    else research_read_tool_slug ∷ []

abbrev pub first_one : List String → List String
first_one [] = []
first_one (x ∷ xs) = x ∷ []

unfoldable pub resolve_channel_ids :
    CoworkerDraftProposal → (assignable_channel_ids : List String) → List String
resolve_channel_ids proposal assignable =
    if ltb 0 (length proposal.requested_channels)
    then filter (λ id. includes proposal.requested_channels id) assignable
    else first_one assignable

abbrev pub denial_if : Bool → Denial → List Denial
denial_if true denial = denial ∷ []
denial_if false denial = []

abbrev pub is_some : List String → Bool
is_some [] = false
is_some (x ∷ xs) = true

abbrev pub denied_connection : RequestedConnection → Bool
denied_connection c = any (λ effect. not (is_read effect)) c.effects

-- P0_COMPOSIO_DIRECT_TOOLS of packages/integrations/composio/src/p0-contract.ts.
abbrev pub composio_direct_tools : List String
composio_direct_tools = research_read_tool_slug ∷ write_tool_denials

unfoldable pub build_denials : CoworkerDraftProposal → List Denial
build_denials p =
    denial_if (not (is_read_only p.approval_intent)) intent_limited
    ++ (map write_tool write_tool_denials
        ++ (map unavailable_tool (
              filter
                (λ tool.
                  not (tool == research_read_tool_slug) && not (includes write_tool_denials tool))
                composio_direct_tools)
            ++ ((destructive_tools ∷ new_account_connection ∷ native_subagents
                  ∷ knowledge_memory_workflow ∷ web_data ∷ [])
                ++ (denial_if (is_some p.requested_knowledge_scopes) knowledge_scopes
                    ++ (denial_if (is_some p.requested_memory_scopes) memory_scopes
                        ++ (denial_if (is_some p.requested_record_capabilities) workflow_records
                            ++ (denial_if p.native_subagents_requested native_subagents_asked
                                ++ (denial_if p.sandbox_requested sandbox
                                    ++ map (λ c. connection_effects c.connector)
                                        (filter denied_connection p.requested_connections)))))))))

-- The part of a draft that grants something.
pub record ResolvedCoworkerDraft : Type 0 where
  pub handle : Option String
  pub channel_ids : List String
  pub tool_grants : List String
  pub denials : List Denial

unfoldable pub resolve_coworker_draft :
    (slugify lower : String → String)
    → (with_suffix : String → ℕ → String) → CoworkerDraftProposal
    → (assignable_channel_ids existing_handles : List String) → ResolvedCoworkerDraft
resolve_coworker_draft slugify lower with_suffix p assignable existing = record {
  handle = unique_handle lower with_suffix (slugify p.display_name) existing;
  channel_ids = resolve_channel_ids p assignable;
  tool_grants = resolve_tools p;
  denials = build_denials p;
}
