-- ===== src/Orchestration/Router/Examples.antt =====
-- Messages and coworkers, for packages/orchestration/src/router.ts.
use forge_room.Base.{
  String, true, List, [], ◌∷◌, ◌==◌, string_eq, if◌then◌else◌, ◌≡◌, refl, ok, Bool,
}
use forge_room.Orchestration.Router.{
  MentionRouterCoworker, active, disabled, RoutingSuccess, direct, extract_mention_tokens,
  resolve_message_recipients, route, route_explicit, resolve_tokens, resolve_token, resolve_handle,
  authorize_target, has_ambiguous_handles,
}
use forge_room.Orchestration.Router.Laws.Recipients.{IsRouting, recipients_deliverable}

-- `toLowerCase` on the texts of the example.
abbrev lowered : String → String
lowered s = if s == "Mina" then "mina" else s

abbrev in_order : String → String → Bool
in_order a b = a == "mina"

abbrev mentions_of : String → List String
mentions_of body = if body == "@Mina please review" then "Mina" ∷ [] else []

abbrev mina : MentionRouterCoworker
mina = record {
  id = "c1";
  handle = "mina";
  status = active;
  is_channel_member = true;
  available_for_new_work = true;
}

abbrev oren : MentionRouterCoworker
oren = record {
  id = "c2";
  handle = "oren";
  status = disabled;
  is_channel_member = true;
  available_for_new_work = true;
}

abbrev routed : RoutingSuccess
routed = record { routing_mode = direct; recipient_handles = "mina" ∷ [] }

routed_to_mina :
    resolve_message_recipients lowered in_order mentions_of "@Mina please review" (oren ∷ mina ∷ [])
    ≡ ok routed
unfolding resolve_message_recipients route extract_mention_tokens has_ambiguous_handles
    route_explicit resolve_tokens resolve_token resolve_handle authorize_target
routed_to_mina = refl

recipients_deliverable_example :
    IsRouting lowered in_order
      (oren ∷ mina ∷ [])
      (extract_mention_tokens lowered mentions_of "@Mina please review")
      routed
recipients_deliverable_example =
    recipients_deliverable lowered in_order mentions_of "@Mina please review" (oren ∷ mina ∷ [])
      routed routed_to_mina
