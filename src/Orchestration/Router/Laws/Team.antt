-- ===== src/Orchestration/Router/Laws/Team.antt =====
-- The fan-out to a team, for packages/orchestration/src/router.ts.
use forge_room.Base.{
  String, Bool, false, List, [], ◌∷◌, map, length, filter, includes, ltb, ◌==◌, string_eq,
  nat_eq_instance, ok, ok-injective, guard_ok, ◌≡◌, ◌≤◌, refl, arith, Bool-cases, inl, inr,
}
use mathlib.Core.Path.{subst}
use forge_room.Base.ListLaws.{includes-sort, length-sort, length-map, map-sort}
use forge_room.Base.Distinct.{Distinct, Distinct-sort}
use forge_room.Orchestration.Router.{
  MentionRouterCoworker, RoutingSuccess, team, enabled_members, handles_in_order, route_team,
  max_routing_recipients,
}
use forge_room.Orchestration.Router.Laws.Explicit.{can_receive}

abbrev handle_of : MentionRouterCoworker → String
handle_of row = row.handle

abbrev pub available_of : List MentionRouterCoworker → List MentionRouterCoworker
available_of = filter λ row. row.available_for_new_work

includes-available :
    (rows : List MentionRouterCoworker) (h : String)
    → includes (map handle_of (available_of (enabled_members rows))) h ≡ can_receive rows h
includes-available [] h = refl
includes-available (row ∷ rows) h = ground (arith, includes-available rows h)

includes-filter :
    (p : MentionRouterCoworker → Bool) (rows : List MentionRouterCoworker) (h : String)
    → includes (map handle_of rows) h ≡ false
    → includes (map handle_of (filter p rows)) h ≡ false
includes-filter p [] h new = refl
includes-filter p (row ∷ rows) h new = ground (arith, includes-filter p rows h)

Distinct-filter :
    (p : MentionRouterCoworker → Bool) (rows : List MentionRouterCoworker)
    → Distinct (map handle_of rows)
    → Distinct (map handle_of (filter p rows))
Distinct-filter p [] d = tt
Distinct-filter p (row ∷ rows) (new, d) = elim (Bool-cases (p row)) [
  | inl kept ↦ rw kept (includes-filter p rows row.handle new, Distinct-filter p rows d)
  | inr dropped ↦ rw dropped (Distinct-filter p rows d)
]

-- What a routing to a team says.
abbrev pub TeamRouting :
    (before : String → String → Bool) → List MentionRouterCoworker → RoutingSuccess → Type 0
TeamRouting before rows r =
    (r.routing_mode ≡ team)
    × (r.recipient_handles ≡ handles_in_order before (available_of rows))
    × (1 ≤ length (available_of rows))
    × (length (available_of rows) ≤ max_routing_recipients)

module _ (before : String → String → Bool) where
  pub route_team_ok :
      (rows : List MentionRouterCoworker) {r : RoutingSuccess}
      → route_team before rows ≡ ok r
      → TeamRouting before rows r
  unfolding route_team
  route_team_ok rows h =
      let available = available_of rows in
      let (inhabited, h') = guard_ok (length rows == 0) _ _ h in
      let (some_left, h'') = guard_ok (length available == 0) _ _ h' in
      let (few, done) = guard_ok (ltb max_routing_recipients (length available)) _ _ h'' in
      subst (TeamRouting before rows) (ok-injective done) (refl, refl, ground arith, ground arith)

  -- The handles of the available members, in order, are a list of the same length.
  pub length-handles_in_order :
      (rows : List MentionRouterCoworker) → length (handles_in_order before rows) ≡ length rows
  length-handles_in_order rows =
      rw
        (
          map-sort handle_of before rows,
          length-sort before (map handle_of rows),
          length-map handle_of rows,
        )
        refl

  -- They are the handles of those who can receive the message.
  pub includes-handles_in_order :
      (coworkers : List MentionRouterCoworker) (h : String)
      → includes (handles_in_order before (available_of (enabled_members coworkers))) h
        ≡ can_receive coworkers h
  includes-handles_in_order coworkers h =
      let rows = available_of (enabled_members coworkers) in
      rw
        (
          map-sort handle_of before rows,
          includes-sort before (map handle_of rows) h,
          includes-available coworkers h,
        )
        refl

  -- They are distinct if those of the enabled members are.
  pub Distinct-handles_in_order :
      (rows : List MentionRouterCoworker)
      → Distinct (map handle_of rows)
      → Distinct (handles_in_order before (available_of rows))
  Distinct-handles_in_order rows d = rw (map-sort handle_of before (available_of rows)) (
      Distinct-sort before (map handle_of (available_of rows))
        (Distinct-filter (λ row. row.available_for_new_work) rows d))
