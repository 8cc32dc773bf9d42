-- ===== src/Playbooks/Matching.antt =====
-- ops/playbook_engine.py: which playbooks an event triggers. `search` is whether a regular
-- expression is found in the JSON text of an event.
use photon_kernel_sil.Prelude.{
  ℕ, String, Bool, true, false, not, ◌&&◌, List, [], ◌∷◌, Option, none, some, ltb, leb, ◌==◌,
  nat_eq, string_eq, keep, if◌then◌else◌,
}
use photon_kernel_sil.Prelude.Dict.{Dict, get, get_or, values}
use photon_kernel_sil.Prelude.Text.{truthy}
use photon_kernel_sil.Prelude.Sorting.{sort_by}
use photon_kernel_sil.Playbooks.Types.{
  metric_threshold, trigger_value, trigger_type_eq, RiskLevel, risk_value, Trigger, Playbook, Event,
  PlaybookEngine,
}

unfoldable pub compare : ℕ → String → ℕ → Bool
compare value op threshold =
    if op == ">"
    then ltb threshold value
    else if op == ">="
    then leb threshold value
    else if op == "<"
    then ltb value threshold
    else if op == "<="
    then leb value threshold
    else if op == "=="
    then value == threshold
    else if op == "!="
    then not (value == threshold)
    else false

-- The test of the metric of a threshold trigger
unfoldable pub metric_matches : Trigger → Event → Bool
unfolding compare
metric_matches trigger event =
    if (trigger.type == metric_threshold) && truthy trigger.metric_name
    then elim (get event.metrics trigger.metric_name) [
      | none ↦ false
      | some value ↦ compare value trigger.comparison trigger.threshold
    ]
    else true

abbrev pub risk_matches : Option RiskLevel → Event → Bool
risk_matches none event = true
risk_matches (some level) event = risk_value level == get_or event.fields "risk_level" ""

-- `_match_conditions`
unfoldable pub match_conditions : Dict String String → Event → Bool
match_conditions [] event = true
match_conditions ((key, expected) ∷ conditions) event =
    let rest = match_conditions conditions event in
    elim (get event.fields key) [
      | none ↦ false
      | some actual ↦ if actual == expected then rest else false
    ]

abbrev pub sooner : Playbook → Playbook → Bool
sooner p q = leb p.priority q.priority

module _ (search : String → Event → Bool) where
  -- `_match_trigger`
  unfoldable pub match_trigger : Trigger → Event → Bool
  unfolding metric_matches
  match_trigger trigger event =
      if not (trigger_value trigger.type == get_or event.fields "type" "")
      then false
      else if truthy trigger.event_pattern && not (search trigger.event_pattern event)
      then false
      else if not (metric_matches trigger event)
      then false
      else risk_matches trigger.risk_level event

  abbrev pub matches : Event → Playbook → Bool
  matches event p = match_trigger p.trigger event && match_conditions p.conditions event

  -- The playbooks that `handle_event` executes, in their order
  unfoldable pub triggered_by : PlaybookEngine → Event → List Playbook
  triggered_by engine event =
      keep (matches event) (sort_by sooner (keep (λ p. p.enabled) (values engine.playbooks)))
