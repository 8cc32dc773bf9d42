-- ===== src/Breaker/Types.antt =====
-- evolution/security_circuit_breaker.py: the data of the breaker.
-- Times are in microseconds. A threshold and a value of an event's metadata are in thousandths.
use photon_kernel_sil.Prelude.{
  ℕ, ◌+◌, ◌-◌, ◌++◌, String, Bool, List, [], ◌∷◌, Option, Eq, eq_of_discrete, length, drop,
}
use photon_kernel_sil.Prelude.Dict.{Dict}

pub data Level : Type 0 where
  l1_instance l2_node l3_cluster l4_emergency : Level

pub data BreakerState : Type 0 where
  closed opened half_open manual_hold : BreakerState

pub data TriggerType : Type 0 where
  seccomp_violation_surge vm_exit_anomaly high_risk_syscall c2_connection : TriggerType
  resource_spike rule_confidence_drop audit_hmac_anomaly manual_trigger : TriggerType

unfoldable pub Level-discrete : Discrete Level
Level-discrete = hlevel

unfoldable pub BreakerState-discrete : Discrete BreakerState
BreakerState-discrete = hlevel

unfoldable pub TriggerType-discrete : Discrete TriggerType
TriggerType-discrete = hlevel

instance abbrev pub level_eq : Eq Level
level_eq = eq_of_discrete Level-discrete

instance abbrev pub state_eq : Eq BreakerState
state_eq = eq_of_discrete BreakerState-discrete

instance abbrev pub trigger_eq : Eq TriggerType
trigger_eq = eq_of_discrete TriggerType-discrete

-- `list(CircuitBreakerLevel).index(level)`
abbrev pub order : Level → ℕ
order l1_instance = 0
order l2_node = 1
order l3_cluster = 2
order l4_emergency = 3

pub record SecurityEvent : Type 0 where
  pub event_id : String
  pub timestamp : ℕ
  pub trigger_type : TriggerType
  pub severity : String
  pub instance_id : Option String
  pub node_id : Option String
  pub description : String
  pub metadata : Dict String ℕ
  pub source : String

pub record Action : Type 0 where
  pub action_id : String
  pub timestamp : ℕ
  pub level : Level
  pub state : BreakerState
  pub trigger_event_id : String
  pub description : String
  pub affected_instances : List String
  pub affected_nodes : List String
  pub auto_recover_at : Option ℕ
  pub requires_manual_confirmation : Bool
  pub recovered_at : Option ℕ
  pub recovered_by : Option String

pub record TriggerRule : Type 0 where
  pub trigger_type : TriggerType
  pub level : Level
  pub threshold : ℕ
  pub window_seconds : ℕ
  pub description : String
  pub enabled : Bool
  pub cooldown_seconds : ℕ

-- A call of one of the two callbacks. What a callback returns or raises is only logged.
pub data Callback : Type 0 where
  isolation : String → Level → Callback
  alert : Action → Callback

pub record Breaker : Type 0 where
  pub node_id : String
  pub alert_callback : Bool
  pub isolation_callback : Bool
  pub auto_recover_enabled : Bool
  pub events : List SecurityEvent
  pub actions : List Action
  pub current_state : BreakerState
  pub current_level : Option Level
  pub last_trigger_time : Dict TriggerType ℕ
  pub rules : List TriggerRule
  pub c2_indicators : List String
  pub running : Bool
  pub callbacks : List Callback

-- One second, in the unit of the times.
abbrev pub second : ℕ
second = 1000000

-- The readings of `time.time()` in one call, in the order of the calls.
abbrev pub Clock : Type 0
Clock = ℕ → ℕ

abbrev pub later : ℕ → Clock → Clock
later k clock i = clock (k + i)

abbrev pub max_events : ℕ
max_events = 10000

-- `append` on `deque(maxlen=10000)`: the oldest events give way.
unfoldable pub remember : List SecurityEvent → SecurityEvent → List SecurityEvent
remember events e = drop (length (events ++ e ∷ []) - max_events) (events ++ e ∷ [])
