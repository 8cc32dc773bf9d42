-- ===== src/Rules/Saving.antt =====
-- evolution/defense_rule_persistence.py: the versions of the rules in the file, written and read.
use photon_kernel_sil.Prelude.{
  ℕ, suc, String, Bool, true, false, ◌||◌, List, [], ◌∷◌, map, Option, none, some, ◌==◌, string_eq,
  if◌then◌else◌,
}
use photon_kernel_sil.Prelude.Dict.{Dict}
use photon_kernel_sil.Rules.Types.{
  RuleState, rule_state_eq, draft, pending, deployed, monitoring, active, circuit_broken,
  rolled_back, deprecated, CircuitBreakerState, closed, opened, half_open, RuleVersion,
  SavedVersion,
}

-- `.value` of a state
abbrev pub state_value : RuleState → String
state_value draft = "draft"
state_value pending = "pending"
state_value deployed = "deployed"
state_value monitoring = "monitoring"
state_value active = "active"
state_value circuit_broken = "broken"
state_value rolled_back = "rolled_back"
state_value deprecated = "deprecated"

abbrev pub circuit_value : CircuitBreakerState → String
circuit_value closed = "closed"
circuit_value opened = "open"
circuit_value half_open = "half_open"

-- `RuleState(value)`, none where it raises `ValueError`
unfoldable pub rule_state : String → Option RuleState
rule_state value =
    if value == "draft"
    then some draft
    else if value == "pending"
    then some pending
    else if value == "deployed"
    then some deployed
    else if value == "monitoring"
    then some monitoring
    else if value == "active"
    then some active
    else if value == "broken"
    then some circuit_broken
    else if value == "rolled_back"
    then some rolled_back
    else if value == "deprecated"
    then some deprecated
    else none

-- `CircuitBreakerState(value)`
unfoldable pub circuit_breaker_state : String → Option CircuitBreakerState
circuit_breaker_state value =
    if value == "closed"
    then some closed
    else if value == "open"
    then some opened
    else if value == "half_open"
    then some half_open
    else none

-- `to_dict`
abbrev pub to_dict : RuleVersion → SavedVersion
to_dict v = record {
  version_id = v.version_id;
  rule_id = v.rule_id;
  config = v.config;
  deployed_at = v.deployed_at;
  deployed_by = v.deployed_by;
  state = state_value v.state;
  trigger_count = v.trigger_count;
  block_count = v.block_count;
  false_positive_count = v.false_positive_count;
  circuit_state = circuit_value v.circuit_state;
  failure_count = v.failure_count;
  success_count = v.success_count;
}

abbrev pub saved : Dict String (List RuleVersion) → Dict String (List SavedVersion)
saved [] = []
saved ((rule_id, versions) ∷ rules) = (rule_id, map to_dict versions) ∷ saved rules

-- The constructor of `RuleVersion` in `load`, with the defaults of the other fields
abbrev pub made : String → SavedVersion → RuleState → CircuitBreakerState → RuleVersion
made config s state circuit_state = record {
  version_id = s.version_id;
  rule_id = s.rule_id;
  config = config;
  deployed_at = s.deployed_at;
  deployed_by = s.deployed_by;
  state = state;
  trigger_count = s.trigger_count;
  block_count = s.block_count;
  false_positive_count = s.false_positive_count;
  failure_threshold = 5;
  success_threshold = 3;
  cooldown_seconds = 60;
  circuit_state = circuit_state;
  failure_count = s.failure_count;
  success_count = s.success_count;
  last_failure_time = 0;
  last_state_change = 0;
}

-- The reading of a version, where `json` is what its configuration is after it was written and read
unfoldable pub loaded : (String → String) → SavedVersion → Option RuleVersion
unfolding rule_state circuit_breaker_state
loaded json s = elim (rule_state s.state) [
  | none ↦ none
  | some state ↦ elim (circuit_breaker_state s.circuit_state) [
    | none ↦ none
    | some circuit_state ↦ some (made (json s.config) s state circuit_state)
  ]
]

-- The versions before the first that cannot be read, and whether all can be read
unfoldable pub load_versions : (String → String) → List SavedVersion → List RuleVersion × Bool
unfolding loaded
load_versions json [] = ([], true)
load_versions json (s ∷ versions) =
    let rest = load_versions json versions in
    elim (loaded json s) [ none ↦ ([], false) | some v ↦ (v ∷ rest.0, rest.1) ]

-- The same of the rules: the one with a version that cannot be read is the last.
unfoldable pub load_rules :
    (String → String) → Dict String (List SavedVersion) → Dict String (List RuleVersion) × Bool
unfolding load_versions
load_rules json [] = ([], true)
load_rules json ((rule_id, versions) ∷ rules) =
    let rest = load_rules json rules in
    let (read, ok) = load_versions json versions in
    if ok then ((rule_id, read) ∷ rest.0, rest.1) else ((rule_id, read) ∷ [], false)

abbrev pub running : RuleState → Bool
running state = (state == active) || (state == monitoring)

-- The place of the last version that runs, counted from n
unfoldable pub last_running : ℕ → List RuleVersion → Option ℕ
last_running n [] = none
last_running n (v ∷ versions) = elim (last_running (suc n) versions) [
  | none ↦ if running v.state then some n else none
  | some i ↦ some i
]

-- What `load` makes active: of each rule, the last version that runs
unfoldable pub all_running : Dict String (List RuleVersion) → Dict String ℕ
unfolding last_running
all_running [] = []
all_running ((rule_id, versions) ∷ rules) = elim (last_running 0 versions) [
  | none ↦ all_running rules
  | some i ↦ (rule_id, i) ∷ all_running rules
]
