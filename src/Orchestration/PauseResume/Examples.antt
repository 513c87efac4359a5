-- ===== src/Orchestration/PauseResume/Examples.antt =====
-- A pause group of two actions, answered by one id of each kind.
use forge_room.Base.{true, false, List, [], ◌∷◌, none, some, ◌≡◌, refl, length}
use mathlib.Core.List.{Memᴰ}
use forge_room.Orchestration.PauseResume.{
  ActionAlias, AgUiResumeInterrupt, resolved, authorize_ag_ui_pause_group_resume,
}
use forge_room.Orchestration.PauseResume.Laws.{AnsweredBy, authorized_resume_answers_all}

abbrev first_action : ActionAlias
first_action = record { required_action_id = "a1"; provider_action_id = "p1" }

abbrev second_action : ActionAlias
second_action = record { required_action_id = "a2"; provider_action_id = "p2" }

abbrev both_actions : List ActionAlias
both_actions = first_action ∷ second_action ∷ []

abbrev both_answers : List AgUiResumeInterrupt
both_answers =
    record { interrupt_id = "p2"; status = some resolved; payload = none }
    ∷ record { interrupt_id = "a1"; status = none; payload = none }
    ∷ []

authorized_resume_answers_all_example :
    (true ≡ true)
    × (false ≡ false)
    × (length both_answers ≡ 2)
    × (length both_actions ≡ 2)
    × AnsweredBy both_actions both_answers "a2"
unfolding authorize_ag_ui_pause_group_resume
authorized_resume_answers_all_example =
    authorized_resume_answers_all both_answers both_actions 2 true false second_action refl
      (Memᴰ.tail (Memᴰ.head refl))
