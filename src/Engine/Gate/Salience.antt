-- ===== src/Engine/Gate/Salience.antt =====
-- Which action the rules that fired ask for.
use mathlib.Core.List.{append_assoc, append-nil}
use markov.Prelude.{
  sym, subst, ◌∙◌, String, ◌≡◌, refl, ◌⊎◌, inl, inr, true, false, Bool-cases, List, [], ◌∷◌, ◌++◌,
  arith, ltb_int, negsuc, ℤ, if◌then◌else◌,
}
use markov.Value.{Vars}
use markov.Workflow.{Rule}
use markov.Engine.FactStore.{FactStore, has_fired}
use markov.Engine.Gate.{Tally, no_tally, action_of, tally_rule, tally_rules, settle_gate}

-- The rule fired, asks for that action, and has that salience.
pub record Decides (facts : FactStore) (action : String) (salience : ℤ) (rule : Rule) : Type 0 where
  pub fired : has_fired facts rule.name ≡ true
  pub asks : action_of rule ≡ action
  pub has : rule.salience ≡ salience

-- A fired rule of the list decides.
abbrev pub DecidedIn : FactStore → String → ℤ → List Rule → Type 0
DecidedIn facts action salience [] = ⊥
DecidedIn facts action salience (rule ∷ rules) =
    Decides facts action salience rule ⊎ DecidedIn facts action salience rules

-- the names of the rules that fired, in the gate's order
abbrev pub fired_names : FactStore → List Rule → List String
fired_names facts [] = []
fired_names facts (rule ∷ rules) =
    let rest = fired_names facts rules in
    if has_fired facts rule.name then rule.name ∷ rest else rest

-- the highest salience, from the given one on
abbrev pub highest : FactStore → ℤ → List Rule → ℤ
highest facts top [] = top
highest facts top (rule ∷ rules) =
    if has_fired facts rule.name
    then (if ltb_int top rule.salience
        then highest facts rule.salience rules
        else highest facts top rules)
    else highest facts top rules

-- no fired rule of the list has a salience above this one
abbrev pub NoneAbove : FactStore → ℤ → List Rule → Type 0
NoneAbove facts top [] = Unit
NoneAbove facts top (rule ∷ rules) =
    (has_fired facts rule.name ≡ true → ltb_int top rule.salience ≡ false)
    × NoneAbove facts top rules

below_trans : (a b c : ℤ) → ltb_int a b ≡ true → ltb_int b c ≡ true → ltb_int a c ≡ true
below_trans a b c h k = ground arith

not_below_trans : (a b c : ℤ) → ltb_int a b ≡ false → ltb_int b c ≡ false → ltb_int a c ≡ false
not_below_trans a b c h k = ground arith

-- the highest salience is not below the one that it starts from
highest_from :
    (facts : FactStore) (top : ℤ) (rules : List Rule)
    → ltb_int (highest facts top rules) top ≡ false
highest_from facts top [] = ground arith
highest_from facts top (rule ∷ rules) = elim (Bool-cases (has_fired facts rule.name)) [
  | inr silent ↦ rw silent (highest_from facts top rules)
  | inl fired ↦ elim (Bool-cases (ltb_int top rule.salience)) [
    | inr lower ↦ rw (fired, lower) (highest_from facts top rules)
    | inl higher ↦
        rw (fired, higher)
          (not_below_trans (highest facts rule.salience rules) rule.salience top
            (highest_from facts rule.salience rules) (ground arith))
  ]
]

highest-NoneAbove :
    (facts : FactStore) (top : ℤ) (rules : List Rule)
    → NoneAbove facts (highest facts top rules) rules
highest-NoneAbove facts top [] = tt
highest-NoneAbove facts top (rule ∷ rules) = elim (Bool-cases (has_fired facts rule.name)) [
  | inr silent ↦
      at (highest facts top rules) (rw silent refl) (λ fired. absurd (clash (sym silent ∙ fired)))
        (highest-NoneAbove facts top rules)
  | inl fired ↦ elim (Bool-cases (ltb_int top rule.salience)) [
    | inr lower ↦
        at (highest facts top rules) (rw (fired, lower) refl)
          (λ e.
            not_below_trans (highest facts top rules) top rule.salience
              (highest_from facts top rules) lower)
          (highest-NoneAbove facts top rules)
    | inl higher ↦
        at (highest facts rule.salience rules) (rw (fired, higher) refl)
          (λ e. highest_from facts rule.salience rules)
          (highest-NoneAbove facts rule.salience rules)
  ]
]
  where
    clash : false ≡ true → ⊥
    clash e = cc

    at :
        (h : ℤ)
        → highest facts top (rule ∷ rules) ≡ h
        → (has_fired facts rule.name ≡ true → ltb_int h rule.salience ≡ false)
        → NoneAbove facts h rules
        → NoneAbove facts (highest facts top (rule ∷ rules)) (rule ∷ rules)
    at h same first later = subst (λ t. NoneAbove facts t (rule ∷ rules)) (sym same) (first, later)

tally_rules-highest :
    (facts : FactStore) (t : Tally) (rules : List Rule)
    → (tally_rules facts t rules).salience ≡ highest facts t.salience rules
unfolding tally_rules tally_rule
tally_rules-highest facts t [] = refl
tally_rules-highest facts t (rule ∷ rules) =
    let later = tally_rules-highest facts (tally_rule facts t rule) rules in ground (arith, later)

tally_rules-fired :
    (facts : FactStore) (t : Tally) (rules : List Rule)
    → (tally_rules facts t rules).fired ≡ t.fired ++ fired_names facts rules
unfolding tally_rules tally_rule
tally_rules-fired facts t [] = sym (append-nil t.fired)
tally_rules-fired facts t (rule ∷ rules) =
    let later = tally_rules-fired facts (tally_rule facts t rule) rules in
    grind (arith, later, append_assoc t.fired (rule.name ∷ []) (fired_names facts rules))

-- Either the tally is left with what it started with, or a fired rule of the list decides it, of a
-- salience above that of the start.
tally_rules-decided :
    (facts : FactStore) (t : Tally) (rules : List Rule)
    → let r = tally_rules facts t rules in
      ((r.action ≡ t.action) × (r.salience ≡ t.salience))
      ⊎ ((ltb_int t.salience r.salience ≡ true) × DecidedIn facts r.action r.salience rules)
unfolding tally_rules tally_rule
tally_rules-decided facts t [] = inl (refl, refl)
tally_rules-decided facts t (rule ∷ rules) =
    let later = tally_rules-decided facts (tally_rule facts t rule) rules in
    let above = below_trans t.salience rule.salience in ground (arith, later, above)

-- A gate's result lists the rules that fired, in the gate's order. Either no fired rule has a
-- salience above -1, and the action is `continue`; or the highest salience of a fired rule is above
-- -1, and the action is that of a fired rule with this salience.
pub settle_gate-action :
    (facts : FactStore) (rules : List Rule) (gate_facts ctx : Vars)
    → let r = (settle_gate facts rules gate_facts ctx).0 in
      let top = highest facts (negsuc 0) rules in
      (r.fired_rules ≡ fired_names facts rules)
      × NoneAbove facts top rules
      × (((r.action ≡ "continue") × (top ≡ negsuc 0))
          ⊎ ((ltb_int (negsuc 0) top ≡ true) × DecidedIn facts r.action top rules))
unfolding settle_gate
settle_gate-action facts rules gate_facts ctx = (
  tally_rules-fired facts no_tally rules,
  highest-NoneAbove facts (negsuc 0) rules,
  rw (← tally_rules-highest facts no_tally rules) (tally_rules-decided facts no_tally rules),
)
