-- ===== src/Orchestration/Router/Laws/Recipients.antt =====
-- The recipients that a message is routed to, for packages/orchestration/src/router.ts.
use forge_room.Base.{
  err_ok, true-false, String, Bool, true, false, not, ◌&&◌, List, [], ◌∷◌, length, filter, any,
  includes, ltb, ◌==◌, string_eq, nat_eq_instance, Result, ok, err, ok-injective, guard_ok, ◌≡◌,
  ◌≤◌, ◌<◌, refl, arith, Bool-cases, inl, inr, eq_iff, if◌then◌else◌,
}
use mathlib.Core.Path.{subst, sym}
use forge_room.Base.ListLaws.{filter_mem, eq_self}
use forge_room.Base.Distinct.{Distinct}
use forge_room.Orchestration.Router.{
  MentionRouterCoworker, RoutingFailure, RoutingSuccess, direct, team, is_enabled, enabled_members,
  route_team, route_explicit, route_unmentioned, route, resolve_tokens, resolve_message_recipients,
  extract_mention_tokens, has_ambiguous_handles, is_team, max_routing_recipients, failure,
  validation_failed, fanout_too_large,
}
use forge_room.Orchestration.Router.Laws.Explicit.{
  can_receive, any_from, included_positive, is_answered, resolve_tokens_ok,
}
use forge_room.Orchestration.Router.Laws.Handles.{unambiguous_iff, Distinct-handles}
use forge_room.Orchestration.Router.Laws.Team.{
  available_of, route_team_ok, length-handles_in_order, includes-handles_in_order,
  Distinct-handles_in_order,
}

-- One or two distinct handles, each of an active member that is available for new work.
abbrev pub AreDeliverable : List MentionRouterCoworker → List String → Type 0
AreDeliverable coworkers handles =
    (1 ≤ length handles)
    × (length handles ≤ max_routing_recipients)
    × Distinct handles
    × ((h : String) → includes handles h ≡ true → can_receive coworkers h ≡ true)

unmentioned_only :
    (rows : List MentionRouterCoworker) {r : RoutingSuccess}
    → route_unmentioned rows ≡ ok r
    → (only : MentionRouterCoworker) × (rows ≡ only ∷ [])
      × (only.available_for_new_work ≡ true)
      × (record { routing_mode = direct; recipient_handles = only.handle ∷ [] } ≡ r)
unfolding route_unmentioned
unmentioned_only [] h = absurd (err_ok h)
unmentioned_only (row ∷ other ∷ rows) h = absurd (err_ok h)
unmentioned_only (only ∷ []) h =
    let (free, done) = guard_ok (not only.available_for_new_work) _ _ h in
    (only, refl, ground arith, ok-injective done)

unmentioned_ok :
    (coworkers : List MentionRouterCoworker) {r : RoutingSuccess}
    → route_unmentioned (enabled_members coworkers) ≡ ok r
    → AreDeliverable coworkers r.recipient_handles × (r.routing_mode ≡ direct)
unmentioned_ok coworkers {r} h =
    let (only, alone, free, done) = unmentioned_only (enabled_members coworkers) h in
    let (enabled, m) = filter_mem is_enabled coworkers alone in
    let reach : can_receive coworkers only.handle ≡ true =
      any_from (λ row. row.handle == only.handle && (is_enabled row && row.available_for_new_work))
        coworkers m (ground (arith, eq_self only.handle)) in
    subst
      (λ (s : RoutingSuccess).
        AreDeliverable coworkers s.recipient_handles × (s.routing_mode ≡ direct))
      done
      (
        (
          omega arith,
          omega arith,
          (refl, tt),
          λ h' m'.
              subst (λ k. can_receive coworkers k ≡ true) ((eq_iff only.handle h').0 (ground arith))
                reach,
        ),
        refl,
      )

module _ (lower : String → String) (coworkers : List MentionRouterCoworker) where
  explicit_ok :
      (explicit : List String) {r : RoutingSuccess}
      → 0 < length explicit
      → route_explicit lower coworkers explicit ≡ ok r
      → AreDeliverable coworkers r.recipient_handles
        × (r.routing_mode ≡ direct)
        × ((t : String)
            → includes explicit t ≡ true
            → is_answered lower coworkers t r.recipient_handles ≡ true)
  unfolding route_explicit
  explicit_ok explicit {r} some_token h =
      let (_, h') = guard_ok (ltb max_routing_recipients (length explicit)) _ _ h in
      loop (resolve_tokens lower coworkers [] explicit) refl h'
    where
      loop :
          (l : Result RoutingFailure (List String))
          → resolve_tokens lower coworkers [] explicit ≡ l
          → ◌≡◌ {A = Result RoutingFailure RoutingSuccess}
              (elim l [
                | err reason ↦ err reason
                | ok resolved ↦
                    if ltb max_routing_recipients (length resolved)
                    then err (failure validation_failed fanout_too_large)
                    else ok record { routing_mode = direct; recipient_handles = resolved }
              ])
              (ok r)
          → AreDeliverable coworkers r.recipient_handles
            × (r.routing_mode ≡ direct)
            × ((t : String)
                → includes explicit t ≡ true
                → is_answered lower coworkers t r.recipient_handles ≡ true)
      loop (err reason) e h = absurd (err_ok h)
      loop (ok resolved) e h =
          let (few, done) = guard_ok (ltb max_routing_recipients (length resolved)) _ _ h in
          let ((apart, reached), _, positive, answered, _) =
            resolve_tokens_ok lower coworkers [] explicit resolved (tt, λ h m. absurd (cc)) e in
          rw (sym (ok-injective done))
            ((positive (omega arith), ground arith, apart, reached), refl, answered)

included-filter :
    (p : String → Bool) (xs : List String) (a : String)
    → includes xs a ≡ true
    → p a ≡ true
    → includes (filter p xs) a ≡ true
included-filter p [] a m h = absurd (cc)
included-filter p (x ∷ xs) a m h = elim (Bool-cases (x == a)) [
  | inl same ↦
      let e : x ≡ a = (eq_iff x a).0 same in
      let kept : p x ≡ true = subst (λ k. p k ≡ true) (sym e) h in ground arith
  | inr other ↦ ground (arith, included-filter p xs a)
]

module _ (lower : String → String) (before : String → String → Bool)
    (coworkers : List MentionRouterCoworker) where
  -- What a routing on the mentions `tokens` says.
  abbrev pub IsRouting : (tokens : List String) → RoutingSuccess → Type 0
  IsRouting tokens r =
      AreDeliverable coworkers r.recipient_handles
      × (r.routing_mode ≡ team
          → (h : String) → includes r.recipient_handles h ≡ can_receive coworkers h)
      × ((t : String)
          → includes tokens t ≡ true
          → is_team lower t ≡ false
          → is_answered lower coworkers t r.recipient_handles ≡ true)

  team_ok :
      {r : RoutingSuccess}
      → has_ambiguous_handles lower (enabled_members coworkers) ≡ false
      → route_team before (enabled_members coworkers) ≡ ok r
      → AreDeliverable coworkers r.recipient_handles
        × ((h : String) → includes r.recipient_handles h ≡ can_receive coworkers h)
  team_ok {r} unambiguous h =
      let rows = enabled_members coworkers in
      let (_, same, some_row, few) = route_team_ok before rows h in
      let apart = Distinct-handles lower rows ((unambiguous_iff lower rows).0 unambiguous) in
      let members = includes-handles_in_order before coworkers in
      let number = length-handles_in_order before (available_of rows) in
      rw same (
        (
          omega (arith, number),
          omega (arith, number),
          Distinct-handles_in_order before rows apart,
          λ h m. ground (arith, members h),
        ),
        members,
      )

  route_ok :
      (tokens : List String) {r : RoutingSuccess}
      → route lower before tokens coworkers ≡ ok r
      → IsRouting tokens r
  unfolding route
  route_ok tokens {r} h =
      let has_team = any (is_team lower) tokens in
      let explicit = filter (λ token. not (is_team lower token)) tokens in
      let enabled = enabled_members coworkers in
      let (compatible, h') = guard_ok (has_team && ltb 0 (length explicit)) _ _ h in
      let (unambiguous, h'') = guard_ok (has_ambiguous_handles lower enabled) _ _ h' in
      let listed : (t : String)
          → includes tokens t ≡ true
          → is_team lower t ≡ false
          → includes explicit t ≡ true =
        λ t m other.
          included-filter (λ token. not (is_team lower token)) tokens t m (rw other refl) in
      elim (Bool-cases has_team) [
        | inl teamed ↦
            let (deliverable, exact) = team_ok unambiguous (rw teamed at h'') in
            (
              deliverable,
              (λ _. exact),
              λ t m other.
                  let positive = included_positive explicit t (listed t m other) in
                  absurd (true-false (ground arith)),
            )
        | inr not_teamed ↦ elim (Bool-cases (ltb 0 (length explicit))) [
          | inl mentioned ↦
              let (deliverable, is_direct, answered) =
                explicit_ok lower coworkers explicit (ground arith)
                  (rw (not_teamed, mentioned) at h'') in
              (
                deliverable,
                (λ is_team_mode. absurd (cc)),
                λ t m other. answered t (listed t m other),
              )
          | inr unmentioned ↦
              let (deliverable, is_direct) =
                unmentioned_ok coworkers (rw (not_teamed, unmentioned) at h'') in
              (
                deliverable,
                (λ is_team_mode. absurd (cc)),
                λ t m other.
                    let positive = included_positive explicit t (listed t m other) in
                    absurd (true-false (ground arith)),
              )
        ]
      ]

-- A routed message goes to one or two distinct handles. Each is of a coworker that is an active
-- member of the channel and is available for new work. A team message goes to all such coworkers,
-- and to no other. Each mention of the body, other than of the team, names one of the recipients,
-- up to case.
pub recipients_deliverable :
    (lower : String → String) (before : String → String → Bool) (mentions : String → List String)
    (body : String) (coworkers : List MentionRouterCoworker) (r : RoutingSuccess)
    → resolve_message_recipients lower before mentions body coworkers ≡ ok r
    → IsRouting lower before coworkers (extract_mention_tokens lower mentions body) r
unfolding resolve_message_recipients
recipients_deliverable lower before mentions body coworkers r h =
    route_ok lower before coworkers (extract_mention_tokens lower mentions body) h
