-- ===== src/Gang/Tests.antt =====
-- The theorems on the gang scheduler at concrete inputs.
use photon_kernel_sil.Prelude.{
  ℕ, ◌<◌, String, true, false, List, [], ◌∷◌, none, some, ◌≡◌, ◌⊎◌, refl, length, All, string_eq,
  nat_eq,
}
use photon_kernel_sil.Prelude.Dict.{get, put}
use photon_kernel_sil.Gang.Types.{
  NumaTopology, Nodes, SandboxInstance, GangJob, GangScheduler, best_effort, pending,
  resources_ready, GangStatus-discrete,
}
use photon_kernel_sil.Gang.Topology.{
  find_best_numa_placement, find_best_numa_node, check_preferred_node, find_best_node_by_score,
  best_from, score, node_has_capacity, node_can_fit_all, try_single_node_placement, place_all,
  greedy_multi_node_placement, by_memory, insert_node, greedy,
}
use photon_kernel_sil.Gang.Scheduler.{
  init, submit_gang, try_allocate_gang, validate_gang_for_allocation, perform_gang_allocation,
  unassigned,
}
use photon_kernel_sil.Gang.Runs.{Reachable, new, after, step, submits, allocates, starts}
use photon_kernel_sil.Gang.Nodes.{has_room, has_room_at, beaten, find_best_numa_node_lem}
use photon_kernel_sil.Gang.Atomic.{Placed, try_allocate-All}
use photon_kernel_sil.Gang.Running.{Agree, Reachable-Agree}

abbrev node : ℕ → ℕ → NumaTopology
node id memory = record {
  node_id = id;
  cpu_cores = 0 ∷ 1 ∷ 2 ∷ 3 ∷ [];
  memory_mb = memory;
  available_memory_mb = memory;
  pcie_devices = [];
  latency_to_other_nodes = [];
}

abbrev two_nodes : Nodes
two_nodes = (0, node 0 300) ∷ (1, node 1 500) ∷ []

abbrev box : String → ℕ → SandboxInstance
box id memory = record {
  instance_id = id;
  pool_type = "light_pool";
  cpu_cores = 1000;
  memory_mb = memory;
  qos_class = best_effort;
  preferred_numa_node = none;
  task_spec = none;
  assigned_numa_node = none;
  assigned_worker_id = none;
  status = "pending";
}

abbrev gang_of : String → List SandboxInstance → GangJob
gang_of id instances = record {
  gang_id = id;
  instances = instances;
  status = pending;
  submit_time = 0;
  start_time = none;
  completion_time = none;
  timeout_seconds = 300;
  all_or_nothing = true;
  gang_scheduling = true;
}

abbrev gang : GangJob
gang = gang_of "g" (box "a" 200 ∷ box "b" 250 ∷ [])

abbrev huge : GangJob
huge = gang_of "h" (box "a" 200 ∷ box "b" 900 ∷ [])

abbrev waiting : GangScheduler
waiting = step (init two_nodes) (submits gang)

abbrev ready : GangScheduler
ready = step waiting (allocates "g")

abbrev going : GangScheduler
going = step ready (starts (λ _. 5) "g")

no_gang_yet : get (init two_nodes).gangs "g" ≡ none
unfolding init get
no_gang_yet = refl

going-Reachable : Reachable going
going-Reachable =
    after ready (starts (λ _. 5) "g")
      (after waiting (allocates "g")
        (after (init two_nodes) (submits gang) (new two_nodes) (no_gang_yet, refl)) tt)
      tt

Reachable-Agree_example : Agree going.gangs going.running_gangs
Reachable-Agree_example = Reachable-Agree going going-Reachable

gang_found : get waiting.gangs "g" ≡ some gang
unfolding step init submit_gang get put
gang_found = refl

gang_allocated : (try_allocate_gang waiting "g").1 ≡ true
unfolding step init submit_gang get put try_allocate_gang validate_gang_for_allocation
    perform_gang_allocation unassigned GangStatus-discrete find_best_numa_placement
    try_single_node_placement node_can_fit_all place_all
gang_allocated = refl

try_allocate-All_example :
    (length waiting.running_gangs < waiting.max_concurrent_gangs)
    × ((g : GangJob) × (get (try_allocate_gang waiting "g").0.gangs "g" ≡ some g)
        × (g.status ≡ resources_ready)
        × All (Placed waiting.numa_nodes gang.instances) g.instances)
try_allocate-All_example = try_allocate-All waiting "g" gang gang_found refl gang_allocated

abbrev too_large : GangScheduler
too_large = step (init two_nodes) (submits huge)

huge_refused : (try_allocate_gang too_large "h").1 ≡ false
unfolding step init submit_gang get put try_allocate_gang validate_gang_for_allocation
    perform_gang_allocation unassigned GangStatus-discrete find_best_numa_placement
    try_single_node_placement node_can_fit_all place_all greedy_multi_node_placement by_memory
    insert_node greedy node_has_capacity
huge_refused = refl

large_node : find_best_numa_node two_nodes (box "a" 200) ≡ some 1
unfolding find_best_numa_node check_preferred_node find_best_node_by_score best_from score
    node_has_capacity
large_node = refl

find_best_numa_node_lem_example :
    (((box "a" 200).preferred_numa_node ≡ some 1) × (has_room two_nodes 1 (box "a" 200) ≡ true))
    ⊎ ((t : ℕ) × (has_room_at two_nodes 1 t (box "a" 200) ≡ true)
        × (beaten two_nodes t (box "a" 200) ≡ false))
find_best_numa_node_lem_example = find_best_numa_node_lem two_nodes (box "a" 200) 1 large_node

each_fits : All (λ i. node_has_capacity (node 0 300) i ≡ true) gang.instances
unfolding node_has_capacity
each_fits = (refl, (refl, tt))

not_together : node_can_fit_all (node 0 300) gang.instances ≡ false
unfolding node_can_fit_all
not_together = refl
