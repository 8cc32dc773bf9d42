-- ===== src/Rules/Types.antt =====
-- evolution/defense_rule_persistence.py: the data. Times are in microseconds; the configuration of a
-- rule is its text.
use photon_kernel_sil.Prelude.{ℕ, String, Bool, List, Option, Eq, eq_of_discrete}
use photon_kernel_sil.Prelude.Dict.{Dict}

pub data RuleState : Type 0 where
  draft pending deployed monitoring active circuit_broken rolled_back deprecated : RuleState

unfoldable pub RuleState-discrete : Discrete RuleState
RuleState-discrete = hlevel

instance abbrev pub rule_state_eq : Eq RuleState
rule_state_eq = eq_of_discrete RuleState-discrete

pub data CircuitBreakerState : Type 0 where
  closed opened half_open : CircuitBreakerState

unfoldable pub CircuitBreakerState-discrete : Discrete CircuitBreakerState
CircuitBreakerState-discrete = hlevel

instance abbrev pub circuit_state_eq : Eq CircuitBreakerState
circuit_state_eq = eq_of_discrete CircuitBreakerState-discrete

pub record RuleVersion : Type 0 where
  pub version_id : String
  pub rule_id : String
  pub config : String
  pub deployed_at : ℕ
  pub deployed_by : String
  pub state : RuleState
  pub trigger_count : ℕ
  pub block_count : ℕ
  pub false_positive_count : ℕ
  pub failure_threshold : ℕ
  pub success_threshold : ℕ
  pub cooldown_seconds : ℕ
  pub circuit_state : CircuitBreakerState
  pub failure_count : ℕ
  pub success_count : ℕ
  pub last_failure_time : ℕ
  pub last_state_change : ℕ

-- What `to_dict` keeps of a version, the two states by their values
pub record SavedVersion : Type 0 where
  pub version_id : String
  pub rule_id : String
  pub config : String
  pub deployed_at : ℕ
  pub deployed_by : String
  pub state : String
  pub trigger_count : ℕ
  pub block_count : ℕ
  pub false_positive_count : ℕ
  pub circuit_state : String
  pub failure_count : ℕ
  pub success_count : ℕ

pub record PersistenceStats : Type 0 where
  pub total_rules : ℕ
  pub active_rules : ℕ
  pub broken_rules : ℕ
  pub rolled_back_rules : ℕ
  pub total_versions : ℕ
  pub total_triggers : ℕ
  pub total_blocks : ℕ
  pub total_false_positives : ℕ
  pub circuit_breaker_triggers : ℕ
  pub auto_rollbacks : ℕ
  pub last_persist_time : ℕ

-- The file of the rules: the versions, and the time of the writing. Its statistics are never read.
pub record SavedState : Type 0 where
  pub rules : Dict String (List SavedVersion)
  pub last_persist_time : ℕ

-- `DefenseRulePersistence`. A version in `_active_versions` is an object of `_rules`: here it is the
-- place of the version in the list of its rule, which only grows.
pub record DefenseRulePersistence : Type 0 where
  pub auto_persist : Bool
  pub auto_rollback_on_circuit_break : Bool
  pub circuit_breaker_enabled : Bool
  pub rules : Dict String (List RuleVersion)
  pub active_versions : Dict String ℕ
  pub stats : PersistenceStats
  pub file : Option SavedState

-- What one call takes from outside: the readings of the clock, and whether the file can be written
pub record World : Type 0 where
  pub clock : ℕ → ℕ
  pub written : Bool
