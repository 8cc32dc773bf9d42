-- ===== src/Rules/Versions.antt =====
-- evolution/defense_rule_persistence.py: the statistics, the deployment of a version, `persist` and
-- `load`.
use photon_kernel_sil.Prelude.{
  ℕ, suc, ◌+◌, ◌/◌, String, Bool, true, false, List, [], ◌∷◌, ◌++◌, Option, none, some, ◌==◌,
  string_eq, count, length, if◌then◌else◌,
}
use photon_kernel_sil.Prelude.Dict.{Dict, get_or, put}
use photon_kernel_sil.Prelude.Text.{text_append, decimal}
use photon_kernel_sil.Rules.Types.{
  rule_state_eq, monitoring, circuit_broken, rolled_back, closed, circuit_state_eq, RuleVersion,
  PersistenceStats, SavedState, DefenseRulePersistence, World,
}
use photon_kernel_sil.Rules.Places.{at}
use photon_kernel_sil.Rules.Saving.{running, saved, load_rules, all_running}

abbrev pub no_stats : PersistenceStats
no_stats = record {
  total_rules = 0;
  active_rules = 0;
  broken_rules = 0;
  rolled_back_rules = 0;
  total_versions = 0;
  total_triggers = 0;
  total_blocks = 0;
  total_false_positives = 0;
  circuit_breaker_triggers = 0;
  auto_rollbacks = 0;
  last_persist_time = 0;
}

abbrev pub new_persistence : Bool → Bool → Bool → Option SavedState → DefenseRulePersistence
new_persistence auto_persist auto_rollback enabled file = record {
  auto_persist = auto_persist;
  auto_rollback_on_circuit_break = auto_rollback;
  circuit_breaker_enabled = enabled;
  rules = [];
  active_versions = [];
  stats = no_stats;
  file = file;
}

-- The loop of `_ensure_config_dir`, where `writable` is what the attempt to write shows
abbrev pub ensure_config_dir : (String → Bool) → String → List String → String
ensure_config_dir writable fallback [] = fallback
ensure_config_dir writable fallback (candidate ∷ candidates) =
    let rest = ensure_config_dir writable fallback candidates in
    if writable candidate then candidate else rest

-- The version at a place of a rule
unfoldable pub version_at : Dict String (List RuleVersion) → String → ℕ → Option RuleVersion
version_at rules rule_id i = at (get_or rules rule_id []) i

-- How many of the rules with an active version have it active or monitored
unfoldable pub count_active : Dict String (List RuleVersion) → Dict String ℕ → ℕ
unfolding version_at
count_active rules [] = 0
count_active rules ((rule_id, i) ∷ active_versions) =
    let rest = count_active rules active_versions in
    elim (version_at rules rule_id i) [
      | none ↦ rest
      | some v ↦ if running v.state then suc rest else rest
    ]

abbrev pub sum_of : (RuleVersion → ℕ) → List RuleVersion → ℕ
sum_of f [] = 0
sum_of f (v ∷ versions) = f v + sum_of f versions

-- A sum over all versions of all rules
abbrev pub total : (List RuleVersion → ℕ) → Dict String (List RuleVersion) → ℕ
total f [] = 0
total f ((rule_id, versions) ∷ rules) = f versions + total f rules

-- `_update_stats`
unfoldable pub update_stats : DefenseRulePersistence → DefenseRulePersistence
unfolding count_active
update_stats m = record m {
  stats = record m.stats {
    total_rules = length m.rules;
    active_rules = count_active m.rules m.active_versions;
    broken_rules = total (count (λ v. v.state == circuit_broken)) m.rules;
    rolled_back_rules = total (count (λ v. v.state == rolled_back)) m.rules;
    total_triggers = total (sum_of (λ v. v.trigger_count)) m.rules;
    total_blocks = total (sum_of (λ v. v.block_count)) m.rules;
    total_false_positives = total (sum_of (λ v. v.false_positive_count)) m.rules;
  };
}

-- The readings k and k + 1 of the clock are those of `persist`.
unfoldable pub persist : World → ℕ → DefenseRulePersistence → DefenseRulePersistence × Bool
persist w k m =
    if w.written
    then (
      record m {
        file = some (record { rules = saved m.rules; last_persist_time = w.clock k });
        stats = record m.stats { last_persist_time = w.clock (suc k) };
      },
      true,
    )
    else (m, false)

abbrev pub auto_persisted : World → ℕ → DefenseRulePersistence → DefenseRulePersistence
auto_persisted w k m = if m.auto_persist then (persist w k m).0 else m

-- `load`, of a file that is there and can be parsed, or of none. `json` is what the configuration of a
-- version is after it was written and read. There is no result where a state in the file is not the
-- value of one: the `ValueError` of this is not among those that `load` catches.
unfoldable pub load : (String → String) → DefenseRulePersistence → DefenseRulePersistence × Option ℕ
unfolding all_running
load json m = elim m.file [
  | none ↦ (m, some 0)
  | some state ↦
      let (rules, ok) = load_rules json state.rules in
      let m' = record m { rules = rules; active_versions = all_running rules } in
      if ok
      then (
        record m' { stats = record m.stats { last_persist_time = state.last_persist_time } },
        some (length rules),
      )
      else (m', none)
]

-- A version that is deployed now; `int(time.time() * 1000)` is in its name.
unfoldable pub new_version : (ℕ → ℕ) → String → String → String → RuleVersion
new_version clock rule_id config deployed_by = record {
  version_id = text_append rule_id (text_append "-v" (decimal (clock 0 / 1000)));
  rule_id = rule_id;
  config = config;
  deployed_at = clock 1;
  deployed_by = deployed_by;
  state = monitoring;
  trigger_count = 0;
  block_count = 0;
  false_positive_count = 0;
  failure_threshold = 5;
  success_threshold = 3;
  cooldown_seconds = 60;
  circuit_state = closed;
  failure_count = 0;
  success_count = 0;
  last_failure_time = 0;
  last_state_change = 0;
}

unfoldable pub deploy_rule :
    World → DefenseRulePersistence → String → String → String → DefenseRulePersistence × RuleVersion
unfolding new_version update_stats
deploy_rule w m rule_id config deployed_by =
    let version = new_version w.clock rule_id config deployed_by in
    let versions = get_or m.rules rule_id [] in
    let m' = update_stats (record m {
      rules = put m.rules rule_id (versions ++ version ∷ []);
      active_versions = put m.active_versions rule_id (length versions);
      stats = record m.stats { total_versions = m.stats.total_versions + 1 };
    }) in
    (auto_persisted w 2 m', version)
