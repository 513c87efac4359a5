-- ===== src/Orchestration/Router.antt =====
-- packages/orchestration/src/router.ts and the types of packages/contracts/src/routing.ts. The
-- message and the details of a failure are left out. `lower` is `toLowerCase`, `mentions` gives the
-- first groups of the matches of MENTION_RE in a text, and `before a b` is
-- `a.localeCompare(b) <= 0`.
pub mod Laws
mod Examples
use forge_room.Base.{
  ℕ, suc, String, Bool, true, false, not, ◌&&◌, Option, none, some, if◌then◌else◌, List, [], ◌∷◌,
  ◌++◌, map, length, filter, any, includes, sort, ltb, ◌==◌, string_eq, nat_eq_instance, Eq,
  enum_eq, Result, ok, err,
}

pub data CoworkerStatus : Type 0 where
  active disabled : CoworkerStatus

pub record MentionRouterCoworker : Type 0 where
  pub id : String
  pub handle : String
  pub status : CoworkerStatus
  pub is_channel_member : Bool
  pub available_for_new_work : Bool

pub data RoutingFailureCode : Type 0 where
  recipient_required recipient_unavailable validation_failed : RoutingFailureCode

pub data RoutingFailureReason : Type 0 where
  recipient_required unknown_handle disabled_coworker non_member ambiguous_handle :
      RoutingFailureReason
  recipient_unavailable team_empty team_too_large fanout_too_large conflicting_routing :
      RoutingFailureReason

pub record RoutingFailure : Type 0 where
  pub code : RoutingFailureCode
  pub reason : RoutingFailureReason

pub data RoutingMode : Type 0 where
  direct team : RoutingMode

pub record RoutingSuccess : Type 0 where
  pub routing_mode : RoutingMode
  pub recipient_handles : List String

abbrev pub RoutingResolution : Type 0
RoutingResolution = Result RoutingFailure RoutingSuccess

abbrev pub max_routing_recipients : ℕ
max_routing_recipients = 2

abbrev pub team_mention : String
team_mention = "team"

-- The durable state of a session; an absent one is `none`.
unfoldable pub is_channel_agent_session_available : Option String → Bool
is_channel_agent_session_available none = true
is_channel_agent_session_available (some state) =
    if state == "" then true else includes ("active" ∷ []) state

abbrev pub failure : RoutingFailureCode → RoutingFailureReason → RoutingFailure
failure c r = record { code = c; reason = r }

abbrev pub is_active_status : CoworkerStatus → Bool
is_active_status active = true
is_active_status disabled = false

abbrev pub is_enabled : MentionRouterCoworker → Bool
is_enabled row = is_active_status row.status && row.is_channel_member

abbrev pub enabled_members : List MentionRouterCoworker → List MentionRouterCoworker
enabled_members = filter is_enabled

unfoldable pub authorize_target : MentionRouterCoworker → Option RoutingFailure
authorize_target row =
    if not (is_active_status row.status)
    then some (failure validation_failed disabled_coworker)
    else if not row.is_channel_member
    then some (failure validation_failed non_member)
    else if not row.available_for_new_work
    then some (
        failure RoutingFailureCode.recipient_unavailable RoutingFailureReason.recipient_unavailable)
    else none

-- `byLower`, with the key `key` and the handles that have it.
abbrev pub HandleGroups : Type 0
HandleGroups = List (String × List String)

abbrev pub add_handle : (key : String) → (handle : String) → HandleGroups → HandleGroups
add_handle key handle [] = (key, handle ∷ []) ∷ []
add_handle key handle ((k, handles) ∷ groups) =
    let later = (k, handles) ∷ add_handle key handle groups in
    if k == key then (k, handles ++ (handle ∷ [])) ∷ groups else later

abbrev pub is_shared : String × List String → Bool
is_shared (key, handles) = ltb 1 (length handles)

abbrev pub only_match : List MentionRouterCoworker → Result RoutingFailure MentionRouterCoworker
only_match [] = err (failure validation_failed unknown_handle)
only_match (row ∷ []) = ok row
only_match (row ∷ other ∷ rows) = err (failure validation_failed ambiguous_handle)

module _ (lower : String → String) where
  abbrev pub group_handles : HandleGroups → List MentionRouterCoworker → HandleGroups
  group_handles groups [] = groups
  group_handles groups (row ∷ rows) =
      group_handles (add_handle (lower row.handle) row.handle groups) rows

  -- Whether `assertHandlesUnambiguous` fails.
  unfoldable pub has_ambiguous_handles : List MentionRouterCoworker → Bool
  has_ambiguous_handles coworkers = any is_shared (group_handles [] coworkers)

  abbrev pub is_team : String → Bool
  is_team token = lower token == team_mention

  abbrev pub token_of : String → String
  token_of raw = if is_team raw then team_mention else raw

  abbrev pub collect_tokens : (seen : List String) → List String → List String
  collect_tokens seen [] = []
  collect_tokens seen (raw ∷ rest) =
      let key = token_of raw in
      let fresh = key ∷ collect_tokens (lower key ∷ seen) rest in
      let skip = collect_tokens seen rest in if includes seen (lower key) then skip else fresh

  unfoldable pub extract_mention_tokens : (mentions : String → List String) → String → List String
  extract_mention_tokens mentions body = collect_tokens [] (mentions body)

  abbrev pub matching : String → List MentionRouterCoworker → List MentionRouterCoworker
  matching token = filter λ row. lower row.handle == lower token

  unfoldable pub resolve_handle :
      String → List MentionRouterCoworker → Result RoutingFailure MentionRouterCoworker
  resolve_handle token coworkers = only_match (matching token coworkers)

  -- One round of the loop over the mentions.
  unfoldable pub resolve_token :
      List MentionRouterCoworker
      → (resolved : List String) → (token : String) → Result RoutingFailure (List String)
  resolve_token coworkers resolved token = elim (resolve_handle token coworkers) [
    | err reason ↦ err reason
    | ok row ↦ elim (authorize_target row) [
      | some denied ↦ err denied
      | none ↦ ok (if includes resolved row.handle then resolved else resolved ++ (row.handle ∷ []))
    ]
  ]

  unfoldable pub resolve_tokens :
      List MentionRouterCoworker
      → (resolved : List String) → (tokens : List String) → Result RoutingFailure (List String)
  resolve_tokens coworkers resolved [] = ok resolved
  resolve_tokens coworkers resolved (token ∷ tokens) =
      elim (resolve_token coworkers resolved token) [
        | err reason ↦ err reason
        | ok more ↦ resolve_tokens coworkers more tokens
      ]

  unfoldable pub route_explicit :
      List MentionRouterCoworker → (explicit : List String) → RoutingResolution
  route_explicit coworkers explicit =
      if ltb max_routing_recipients (length explicit)
      then err (failure validation_failed fanout_too_large)
      else elim (resolve_tokens coworkers [] explicit) [
        | err reason ↦ err reason
        | ok resolved ↦
            if ltb max_routing_recipients (length resolved)
            then err (failure validation_failed fanout_too_large)
            else ok record { routing_mode = direct; recipient_handles = resolved }
      ]

-- Without a mention.
unfoldable pub route_unmentioned : (enabled : List MentionRouterCoworker) → RoutingResolution
route_unmentioned (only ∷ []) =
    if not only.available_for_new_work
    then err (
        failure RoutingFailureCode.recipient_unavailable RoutingFailureReason.recipient_unavailable)
    else ok record { routing_mode = direct; recipient_handles = only.handle ∷ [] }
route_unmentioned [] =
    err (failure RoutingFailureCode.recipient_required RoutingFailureReason.recipient_required)
route_unmentioned (row ∷ other ∷ rows) =
    err (failure RoutingFailureCode.recipient_required RoutingFailureReason.recipient_required)

module _ (before : String → String → Bool) where
  abbrev pub handles_in_order : List MentionRouterCoworker → List String
  handles_in_order rows = map (λ row. row.handle) (sort (λ a b. before a.handle b.handle) rows)

  unfoldable pub route_team : (enabled : List MentionRouterCoworker) → RoutingResolution
  route_team enabled =
      let available = filter (λ row. row.available_for_new_work) enabled in
      if length enabled == 0
      then err (failure RoutingFailureCode.recipient_required team_empty)
      else if length available == 0
      then err (
          failure RoutingFailureCode.recipient_unavailable
            RoutingFailureReason.recipient_unavailable)
      else if ltb max_routing_recipients (length available)
      then err (failure validation_failed team_too_large)
      else ok record { routing_mode = team; recipient_handles = handles_in_order available }

module _ (lower : String → String) (before : String → String → Bool) where
  -- The dispatch on the mentions found.
  unfoldable pub route : (tokens : List String) → List MentionRouterCoworker → RoutingResolution
  route tokens coworkers =
      let has_team = any (is_team lower) tokens in
      let explicit = filter (λ token. not (is_team lower token)) tokens in
      let enabled = enabled_members coworkers in
      if has_team && ltb 0 (length explicit)
      then err (failure validation_failed conflicting_routing)
      else if has_ambiguous_handles lower enabled
      then err (failure validation_failed ambiguous_handle)
      else if has_team
      then route_team before enabled
      else if ltb 0 (length explicit)
      then route_explicit lower coworkers explicit
      else route_unmentioned enabled

  unfoldable pub resolve_message_recipients :
      (mentions : String → List String)
      → (body : String) → List MentionRouterCoworker
      → RoutingResolution
  resolve_message_recipients mentions body = route (extract_mention_tokens lower mentions body)
