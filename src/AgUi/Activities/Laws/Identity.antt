-- ===== src/AgUi/Activities/Laws/Identity.antt =====
-- What the comparisons of lanes and activities decide, for
-- packages/integrations/ag-ui/src/activity-reducer.ts.
use forge_room.Base.{
  String, true, Option, none, some, string_eq, nat_eq_instance, ◌≡◌, refl, sym, ap, arith, eq_iff,
  true-false, and_true,
}
use forge_room.AgUi.Lanes.{
  ActorKind, human, coworker, system, native_subagent, same_kind, ActivityLaneOwner, same_option,
  same_owner,
}
use forge_room.AgUi.Delta.{
  ActivityIdentity, coworker_work, task_record, sandbox, artifact, pause_group, controlled_ui,
  connection, audit_receipt,
}
use forge_room.AgUi.Activities.{identity_fields_match}

same_kind_eq : (a b : ActorKind) → same_kind a b ≡ true → a ≡ b
same_kind_eq human human h = refl
same_kind_eq coworker coworker h = refl
same_kind_eq system system h = refl
same_kind_eq native_subagent native_subagent h = refl
same_kind_eq a b h = absurd (true-false (sym h))

same_option_eq : (a b : Option String) → same_option a b ≡ true → a ≡ b
same_option_eq none none h = refl
same_option_eq (some a) (some b) h = ap some ((eq_iff a b).0 h)
same_option_eq none (some b) h = absurd (true-false (sym h))
same_option_eq (some a) none h = absurd (true-false (sym h))

-- Lanes that compare as the same are equal.
pub same_owner_eq : (a b : ActivityLaneOwner) → same_owner a b ≡ true → a ≡ b
unfolding same_owner
same_owner_eq a b h =
    let (kinds, ids) = and_true _ _ h in
    let (coworkers, threads) = and_true _ _ ids in
    let k = same_kind_eq a.actor_kind b.actor_kind kinds in
    let c = same_option_eq a.coworker_id b.coworker_id coworkers in
    let l = same_option_eq a.logical_thread_id b.logical_thread_id threads in
    λ i. record { actor_kind = k i; coworker_id = c i; logical_thread_id = l i }

-- Contents whose identity fields match are of the same activity.
pub identity_match_eq : (a b : ActivityIdentity) → identity_fields_match a b ≡ true → a ≡ b
unfolding identity_fields_match
identity_match_eq (coworker_work c l) (coworker_work c' l') h =
    let (e, e') = and_true _ _ h in
    let p = (eq_iff c c').0 e in let q = (eq_iff l l').0 e' in λ i. coworker_work (p i) (q i)
identity_match_eq (task_record t) (task_record t') h = ap task_record ((eq_iff t t').0 h)
identity_match_eq (sandbox s) (sandbox s') h = ap sandbox ((eq_iff s s').0 h)
identity_match_eq (artifact a) (artifact a') h = ap artifact ((eq_iff a a').0 h)
identity_match_eq (pause_group p) (pause_group p') h = ap pause_group ((eq_iff p p').0 h)
identity_match_eq (controlled_ui s) (controlled_ui s') h = ap controlled_ui ((eq_iff s s').0 h)
identity_match_eq (connection c) (connection c') h = ap connection ((eq_iff c c').0 h)
identity_match_eq (audit_receipt r) (audit_receipt r') h = ap audit_receipt ((eq_iff r r').0 h)
identity_match_eq a b h = absurd (true-false (sym h))

same_kind_self : (a : ActorKind) → same_kind a a ≡ true
same_kind_self human = refl
same_kind_self coworker = refl
same_kind_self system = refl
same_kind_self native_subagent = refl

same_option_self : (a : Option String) → same_option a a ≡ true
same_option_self none = refl
same_option_self (some a) = (eq_iff a a).1 refl

pub same_owner_self : (a : ActivityLaneOwner) → same_owner a a ≡ true
unfolding same_owner
same_owner_self a = ground (
  arith,
  same_kind_self a.actor_kind,
  same_option_self a.coworker_id,
  same_option_self a.logical_thread_id,
)
