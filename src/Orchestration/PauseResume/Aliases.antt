-- ===== src/Orchestration/PauseResume/Aliases.antt =====
-- The map from aliases to required actions.
use forge_room.Base.{
  String, some, ◌≡◌, ◌⊎◌, inl, inr, List, [], ◌∷◌, refl, arith, eq_iff, ◌==◌, string_eq, ok,
  >>=-eq-ok, Bool-cases, ok-injective,
}
use mathlib.Core.List.{Memᴰ}
use mathlib.Core.Path.{sym, subst}
use forge_room.Orchestration.PauseResume.{
  ActionAlias, TextMap, map_get, add_alias, canonical_by_alias,
}

-- The text is one of the two ids of the action.
abbrev pub Names : String → ActionAlias → Type 0
Names key a = (key ≡ a.required_action_id) ⊎ (key ≡ a.provider_action_id)

-- Some listed action has that required id and is named by the key.
abbrev pub NamedIn : List ActionAlias → String → String → Type 0
NamedIn actions key required =
    (a : ActionAlias) × Memᴰ a actions × (a.required_action_id ≡ required) × Names key a

-- Every entry of the map comes from a listed action.
abbrev pub AllNamed : List ActionAlias → TextMap → Type 0
AllNamed actions m =
    (key required : String) → map_get key m ≡ some required → NamedIn actions key required

add_alias_ok :
    (alias required : String) (m n : TextMap)
    → add_alias alias required m ≡ ok n
    → n ≡ (alias, required) ∷ m
unfolding add_alias
add_alias_ok alias required m n h = ground arith

entry_named :
    (actions : List ActionAlias) (a : ActionAlias) (alias : String) (m : TextMap)
    → Memᴰ a actions
    → Names alias a
    → AllNamed actions m
    → AllNamed actions ((alias, a.required_action_id) ∷ m)
entry_named actions a alias m here named all_named key required e =
    elim (Bool-cases (alias == key)) [
      | inl same ↦ (a, here, ground arith, subst (λ k. Names k a) ((eq_iff alias key).0 same) named)
      | inr other ↦ all_named key required (ground arith)
    ]

-- The map that the loop builds over a part of the actions names listed actions alone.
pub canonical_named :
    (actions rest : List ActionAlias) (m n : TextMap)
    → ((a : ActionAlias) → Memᴰ a rest → Memᴰ a actions)
    → AllNamed actions m
    → canonical_by_alias m rest ≡ ok n
    → AllNamed actions n
unfolding canonical_by_alias
canonical_named actions [] m n sub all_named h = subst (AllNamed actions) (ok-injective h) all_named
canonical_named actions (a ∷ rest) m n sub all_named h =
    let (first, e₁, h₁) = >>=-eq-ok (add_alias a.required_action_id a.required_action_id m) _ h in
    let (second, e₂, h₂) =
      >>=-eq-ok (add_alias a.provider_action_id a.required_action_id first) _ h₁ in
    let here = sub a (Memᴰ.head refl) in
    let named₁ =
      subst (AllNamed actions) (sym (add_alias_ok _ _ m first e₁))
        (entry_named actions a a.required_action_id m here (inl refl) all_named) in
    let named₂ =
      subst (AllNamed actions) (sym (add_alias_ok _ _ first second e₂))
        (entry_named actions a a.provider_action_id first here (inr refl) named₁) in
    canonical_named actions rest second n (λ b k. sub b (Memᴰ.tail k)) named₂ h₂
