-- ===== src/Domain/Transitions/Draft.antt =====
-- packages/domain/src/transitions.ts: the states of a coworker draft.
use forge_room.Base.{Bool, List, [], ◌∷◌, includes, Eq, enum_eq}

pub data CoworkerDraftState : Type 0 where
  draft awaiting_review confirmed provisioning ready superseded expired rejected
        failed_provisioning :
      CoworkerDraftState

unfoldable pub CoworkerDraftState-discrete : Discrete CoworkerDraftState
CoworkerDraftState-discrete = hlevel

instance abbrev pub coworker_draft_eq : Eq CoworkerDraftState
coworker_draft_eq = enum_eq CoworkerDraftState-discrete

unfoldable pub coworker_draft_transitions : CoworkerDraftState → List CoworkerDraftState
coworker_draft_transitions draft = awaiting_review ∷ superseded ∷ expired ∷ rejected ∷ []
coworker_draft_transitions awaiting_review = confirmed ∷ superseded ∷ expired ∷ rejected ∷ []
coworker_draft_transitions confirmed = provisioning ∷ []
coworker_draft_transitions provisioning = ready ∷ failed_provisioning ∷ []
coworker_draft_transitions failed_provisioning = provisioning ∷ []
coworker_draft_transitions ready = []
coworker_draft_transitions superseded = []
coworker_draft_transitions expired = []
coworker_draft_transitions rejected = []

unfoldable pub can_transition_coworker_draft : CoworkerDraftState → CoworkerDraftState → Bool
unfolding coworker_draft_transitions CoworkerDraftState-discrete
can_transition_coworker_draft from to = includes (coworker_draft_transitions from) to
