-- ===== src/Orchestration/PauseResume/Laws.antt =====
-- What an authorised resume of a pause group answers.
use forge_room.Base.{
  ℕ, ◌+◌, String, Bool, true, false, Option, none, some, ◌≡◌, ◌⊎◌, inl, inr, List, [], ◌∷◌, refl,
  arith, eq_iff, ◌==◌, nat_eq_instance, nat_eq_iff, string_eq, ok, >>=-eq-ok, Bool-cases, includes,
  length, map, ok-injective,
}
use forge_room.Base.Distinct.{Distinct}
use forge_room.Base.Pigeonhole.{Within, Distinct-covers}
use mathlib.Core.List.{Memᴰ}
use mathlib.Core.Path.{subst}
use forge_room.Orchestration.PauseResume.{
  ActionAlias, TextMap, map_get, AgUiResumeInterrupt, check_interrupts, canonical_by_alias,
  authorize_ag_ui_pause_group_resume, is_cancelled, bypasses,
}
use forge_room.Orchestration.PauseResume.Aliases.{NamedIn, AllNamed, canonical_named}

-- Some interrupt names the action, was not cancelled, and carries no decision.
abbrev pub AnsweredBy : List ActionAlias → List AgUiResumeInterrupt → String → Type 0
AnsweredBy actions resume required =
    (item : AgUiResumeInterrupt) × Memᴰ item resume
    × NamedIn actions item.interrupt_id required
    × (is_cancelled item.status ≡ false)
    × (bypasses item.payload ≡ false)

-- The set that the loop has gathered: distinct, and one longer for each interrupt.
record Gathered (m : TextMap) (seen found : List String) (items : List AgUiResumeInterrupt)
    : Type 0 where
  distinct : Distinct seen → Distinct found
  size : length found ≡ length items + length seen
  kept : Within seen found
  from_items :
      (id : String)
      → includes found id ≡ true
      → (includes seen id ≡ true)
        ⊎ ((item : AgUiResumeInterrupt) × Memᴰ item items
            × (map_get item.interrupt_id m ≡ some id)
            × (is_cancelled item.status ≡ false)
            × (bypasses item.payload ≡ false))

record Round (m : TextMap) (seen found : List String) (item : AgUiResumeInterrupt)
    (items : List AgUiResumeInterrupt) (id : String) : Type 0 where
  named : map_get item.interrupt_id m ≡ some id
  standing : is_cancelled item.status ≡ false
  plain : bypasses item.payload ≡ false
  fresh : includes seen id ≡ false
  later : check_interrupts m (id ∷ seen) items ≡ ok found

round :
    (m : TextMap) (seen found : List String) (item : AgUiResumeInterrupt)
    (items : List AgUiResumeInterrupt)
    → check_interrupts m seen (item ∷ items) ≡ ok found
    → (id : String) × Round m seen found item items id
unfolding check_interrupts
round m seen found item items h = named (map_get item.interrupt_id m) refl
  where
    named :
        (o : Option String)
        → map_get item.interrupt_id m ≡ o
        → (id : String) × Round m seen found item items id
    named none e = absurd (ground arith)
    named (some id) e = (id, ground arith)

nothing_gathered :
    (m : TextMap) (seen found : List String) → check_interrupts m seen [] ≡ ok found → seen ≡ found
unfolding check_interrupts
nothing_gathered m seen found h = ok-injective h

-- Each round adds one fresh action to the set.
gathered :
    (m : TextMap) (seen found : List String) (items : List AgUiResumeInterrupt)
    → check_interrupts m seen items ≡ ok found
    → Gathered m seen found items
gathered m seen found [] h =
    subst (λ f. Gathered m seen f []) (nothing_gathered m seen found h)
      (record {
        distinct = λ d. d;
        size = omega arith;
        kept = λ id k. k;
        from_items = λ id k. inl k;
      })
gathered m seen found (item ∷ items) h =
    let (id, r) = round m seen found item items h in
    let g = gathered m (id ∷ seen) found items r.later in
    record {
      distinct = λ d. g.distinct (r.fresh, d);
      size = omega (arith, g.size);
      kept = λ a k. g.kept a (ground arith);
      from_items = λ a k. elim (g.from_items a k) [
        | inl old ↦ elim (Bool-cases (id == a)) [
          | inl same ↦ inr (
            item,
            Memᴰ.head refl,
            subst (λ x. map_get item.interrupt_id m ≡ some x) ((eq_iff id a).0 same) r.named,
            r.standing,
            r.plain,
          )
          | inr other ↦ inl (ground arith)
        ]
        | inr (i, member, named, standing, plain) ↦
            inr (i, Memᴰ.tail member, named, standing, plain)
      ];
    }

-- The facts behind an authorised resume.
record Authorised (resume : List AgUiResumeInterrupt) (actions : List ActionAlias) (count : ℕ)
    : Type 0 where
  aliases : TextMap
  found : List String
  built : canonical_by_alias [] actions ≡ ok aliases
  checked : check_interrupts aliases [] resume ≡ ok found
  all_actions : length actions ≡ count
  all_found : length found ≡ count

authorised :
    (resume : List AgUiResumeInterrupt) (actions : List ActionAlias) (count : ℕ)
    (ready expired : Bool)
    → authorize_ag_ui_pause_group_resume resume actions count ready expired ≡ ok tt
    → (ready ≡ true) × (expired ≡ false) × Authorised resume actions count
unfolding authorize_ag_ui_pause_group_resume
authorised [] actions count ready expired h = absurd (ground arith)
authorised (i ∷ is) actions count ready true h = absurd (ground arith)
authorised (i ∷ is) actions count false false h = absurd (ground arith)
authorised (i ∷ is) actions count true false h = elim (Bool-cases (length actions == count)) [
  | inl same ↦
      let (aliases, built, h₁) = >>=-eq-ok (canonical_by_alias [] actions) _ (rw same at h) in
      let (found, checked, h₂) = >>=-eq-ok (check_interrupts aliases [] (i ∷ is)) _ h₁ in
      (
        refl,
        refl,
        record {
          aliases = aliases;
          found = found;
          built = built;
          checked = checked;
          all_actions = (nat_eq_iff _ _).0 same;
          all_found = ground arith;
        },
      )
  | inr other ↦ absurd (ground arith)
]

abbrev required_ids : List ActionAlias → List String
required_ids = map (λ a. a.required_action_id)

mem_required :
    (a : ActionAlias) (actions : List ActionAlias)
    → Memᴰ a actions
    → includes (required_ids actions) a.required_action_id ≡ true
mem_required a [] k = elim k [ ]
mem_required a (b ∷ actions) (Memᴰ.head e) =
    subst (λ x. includes (required_ids (x ∷ actions)) a.required_action_id ≡ true) e
      (ground (arith, eq_iff a.required_action_id a.required_action_id))
mem_required a (b ∷ actions) (Memᴰ.tail k) = ground (arith, mem_required a actions k)

length-required_ids : (actions : List ActionAlias) → length (required_ids actions) ≡ length actions
length-required_ids [] = refl
length-required_ids (a ∷ actions) = omega (arith, length-required_ids actions)

module _ (actions : List ActionAlias) (resume : List AgUiResumeInterrupt) (m : TextMap)
    (named : AllNamed actions m) (found : List String) (g : Gathered m [] found resume) where
  answered : (id : String) → includes found id ≡ true → AnsweredBy actions resume id
  answered id k = elim (g.from_items id k) [
    | inl old ↦ absurd (cc)
    | inr (item, member, e, standing, plain) ↦
        (item, member, named item.interrupt_id id e, standing, plain)
  ]

  found_required : Within found (required_ids actions)
  found_required id k =
      let (item, member, naming, standing, plain) = answered id k in
      let (a, there, same, names) = naming in
      subst (λ x. includes (required_ids actions) x ≡ true) same (mem_required a actions there)

  all_answered :
      (id : String)
      → length found ≡ length actions
      → includes (required_ids actions) id ≡ true
      → AnsweredBy actions resume id
  all_answered id h k = answered id (
      Distinct-covers found (required_ids actions) (g.distinct tt) found_required
        (omega (arith, length-required_ids actions)) id k)

-- If the resume of a pause group is authorised, the group is ready and not expired, there is
-- exactly one interrupt for each required action, and each listed action is named, by its own id
-- or its provider's, by an interrupt that was not cancelled and carries no decision.
pub authorized_resume_answers_all :
    (resume : List AgUiResumeInterrupt) (actions : List ActionAlias) (count : ℕ)
    (ready expired : Bool) (a : ActionAlias)
    → authorize_ag_ui_pause_group_resume resume actions count ready expired ≡ ok tt
    → Memᴰ a actions
    → (ready ≡ true)
      × (expired ≡ false)
      × (length resume ≡ count)
      × (length actions ≡ count)
      × AnsweredBy actions resume a.required_action_id
authorized_resume_answers_all resume actions count ready expired a h k =
    let (is_ready, unexpired, facts) = authorised resume actions count ready expired h in
    let g = gathered facts.aliases [] facts.found resume facts.checked in
    let named =
      canonical_named actions actions [] facts.aliases (λ a k. k) (λ key required e. absurd (cc))
        facts.built in
    (
      is_ready,
      unexpired,
      omega (arith, g.size, facts.all_found),
      facts.all_actions,
      all_answered actions resume facts.aliases named facts.found g a.required_action_id
          (omega (arith, facts.all_found, facts.all_actions)) (mem_required a actions k),
    )
