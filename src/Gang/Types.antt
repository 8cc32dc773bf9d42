-- ===== src/Gang/Types.antt =====
-- evolution/gang_scheduler.py: the data. Times are in microseconds, CPU shares in thousandths of a
-- core.
use photon_kernel_sil.Prelude.{ℕ, String, Bool, List, Option, Eq, eq_of_discrete}
use photon_kernel_sil.Prelude.Dict.{Dict}

pub data QosClass : Type 0 where
  guaranteed burstable best_effort : QosClass

pub data GangStatus : Type 0 where
  pending resources_ready running completed failed timeout : GangStatus

unfoldable pub QosClass-discrete : Discrete QosClass
QosClass-discrete = hlevel

unfoldable pub GangStatus-discrete : Discrete GangStatus
GangStatus-discrete = hlevel

instance abbrev pub qos_eq : Eq QosClass
qos_eq = eq_of_discrete QosClass-discrete

instance abbrev pub gang_status_eq : Eq GangStatus
gang_status_eq = eq_of_discrete GangStatus-discrete

abbrev pub status_value : GangStatus → String
status_value pending = "pending"
status_value resources_ready = "ready"
status_value running = "running"
status_value completed = "completed"
status_value failed = "failed"
status_value timeout = "timeout"

pub record NumaTopology : Type 0 where
  pub node_id : ℕ
  pub cpu_cores : List ℕ
  pub memory_mb : ℕ
  pub available_memory_mb : ℕ
  pub pcie_devices : List String
  pub latency_to_other_nodes : Dict ℕ ℕ

pub record SandboxInstance : Type 0 where
  pub instance_id : String
  pub pool_type : String
  pub cpu_cores : ℕ
  pub memory_mb : ℕ
  pub qos_class : QosClass
  pub preferred_numa_node : Option ℕ
  pub task_spec : Option (Dict String String)
  pub assigned_numa_node : Option ℕ
  pub assigned_worker_id : Option String
  pub status : String

pub record GangJob : Type 0 where
  pub gang_id : String
  pub instances : List SandboxInstance
  pub status : GangStatus
  pub submit_time : ℕ
  pub start_time : Option ℕ
  pub completion_time : Option ℕ
  pub timeout_seconds : ℕ
  pub all_or_nothing : Bool
  pub gang_scheduling : Bool

-- `TopologyAwareScheduler.numa_nodes`
abbrev pub Nodes : Type 0
Nodes = Dict ℕ NumaTopology

pub record GangScheduler : Type 0 where
  pub gangs : Dict String GangJob
  pub running_gangs : List String
  pub numa_nodes : Nodes
  pub max_concurrent_gangs : ℕ
  pub eviction_enabled : Bool

abbrev pub second : ℕ
second = 1000000
