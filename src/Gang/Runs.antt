-- ===== src/Gang/Runs.antt =====
-- Histories of a gang scheduler.
use photon_kernel_sil.Prelude.{ℕ, String, Bool, Option, none, ◌≡◌, string_eq}
use photon_kernel_sil.Prelude.Dict.{Dict, get}
use photon_kernel_sil.Gang.Types.{NumaTopology, Nodes, pending, GangJob, GangScheduler}
use photon_kernel_sil.Gang.Topology.{register_numa_node, detect_local_topology}
use photon_kernel_sil.Gang.Scheduler.{
  init, submit_gang, try_allocate_gang, start_gang, complete_gang, evict_low_priority_gangs,
}

pub data Operation : Type 0 where
  registers : NumaTopology → Operation
  detects : Option (Option ℕ) → Operation
  submits : GangJob → Operation
  allocates : String → Operation
  starts : (ℕ → ℕ) → String → Operation
  completes : ℕ → String → Bool → Operation
  evicts : Dict String ℕ → Operation

unfoldable pub step : GangScheduler → Operation → GangScheduler
step s (registers node) = record s { numa_nodes = register_numa_node node s.numa_nodes }
step s (detects cpu_count) = record s { numa_nodes = detect_local_topology cpu_count s.numa_nodes }
step s (submits gang) = (submit_gang s gang).0
step s (allocates gang_id) = (try_allocate_gang s gang_id).0
step s (starts clock gang_id) = (start_gang clock s gang_id).0
step s (completes now gang_id success) = complete_gang now s gang_id success
step s (evicts needed) = (evict_low_priority_gangs s needed).0

-- A gang is submitted under a new id, and it is pending.
abbrev pub Fresh : GangScheduler → Operation → Type 0
Fresh s (submits gang) = (get s.gangs gang.gang_id ≡ none) × (gang.status ≡ pending)
Fresh s (registers node) = Unit
Fresh s (detects cpu_count) = Unit
Fresh s (allocates gang_id) = Unit
Fresh s (starts clock gang_id) = Unit
Fresh s (completes now gang_id success) = Unit
Fresh s (evicts needed) = Unit

-- The states that a new scheduler can get to.
pub data Reachable : GangScheduler → Type 0 where
  new : (nodes : Nodes) → Reachable (init nodes)
  after : (s : GangScheduler) (o : Operation) → Reachable s → Fresh s o → Reachable (step s o)
