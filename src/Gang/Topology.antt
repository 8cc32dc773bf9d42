-- ===== src/Gang/Topology.antt =====
-- evolution/gang_scheduler.py: `TopologyAwareScheduler`.
use photon_kernel_sil.Prelude.{
  ℕ, zero, suc, ◌+◌, ◌*◌, String, Bool, not, ◌&&◌, List, [], ◌∷◌, Option, none, some, ltb, leb,
  ◌==◌, string_eq, nat_eq, keep, length, if◌then◌else◌,
}
use photon_kernel_sil.Prelude.Dict.{Dict, get, put}
use photon_kernel_sil.Gang.Types.{NumaTopology, SandboxInstance, Nodes}

unfoldable pub register_numa_node : NumaTopology → Nodes → Nodes
register_numa_node node nodes = put nodes node.node_id node

-- `list(range(n))`
range_from : ℕ → ℕ → List ℕ
range_from start zero = []
range_from start (suc n) = start ∷ range_from (start + 1) n

local_node : List ℕ → ℕ → NumaTopology
local_node cores memory = record {
  node_id = 0;
  cpu_cores = cores;
  memory_mb = memory;
  available_memory_mb = memory;
  pcie_devices = [];
  latency_to_other_nodes = [];
}

-- `os.cpu_count() or 4`
cores_or_four : Option ℕ → ℕ
cores_or_four none = 4
cores_or_four (some n) = if n == 0 then 4 else n

-- `detect_local_topology`: the argument is what `os.cpu_count()` gives, `none` where it raises.
unfoldable pub detect_local_topology : Option (Option ℕ) → Nodes → Nodes
unfolding range_from local_node cores_or_four
detect_local_topology none nodes = register_numa_node (local_node (0 ∷ 1 ∷ 2 ∷ 3 ∷ []) 4096) nodes
detect_local_topology (some cpu_count) nodes =
    register_numa_node (local_node (range_from 0 (cores_or_four cpu_count)) 8192) nodes

unfoldable pub node_has_capacity : NumaTopology → SandboxInstance → Bool
node_has_capacity node inst =
    leb inst.memory_mb node.available_memory_mb && leb inst.cpu_cores (length node.cpu_cores * 1000)

abbrev pub total_memory : List SandboxInstance → ℕ
total_memory [] = 0
total_memory (i ∷ rest) = i.memory_mb + total_memory rest

abbrev pub total_cpu : List SandboxInstance → ℕ
total_cpu [] = 0
total_cpu (i ∷ rest) = i.cpu_cores + total_cpu rest

unfoldable pub node_can_fit_all : NumaTopology → List SandboxInstance → Bool
node_can_fit_all node instances =
    leb (total_memory instances) node.available_memory_mb
    && leb (total_cpu instances) (length node.cpu_cores * 1000)

unfoldable pub check_preferred_node : Nodes → SandboxInstance → Option ℕ
check_preferred_node nodes inst = elim inst.preferred_numa_node [
  | none ↦ none
  | some preferred ↦ elim (get nodes preferred) [
    | none ↦ none
    | some node ↦ if node_has_capacity node inst then some preferred else none
  ]
]

unfoldable pub score : NumaTopology → ℕ
score node = node.available_memory_mb + length node.cpu_cores * 100

-- The loop of `_find_best_node_by_score`: the best node so far with its score. The source begins
-- with the score -1, which every score beats.
unfoldable pub best_from : SandboxInstance → Option (ℕ × ℕ) → Nodes → Option (ℕ × ℕ)
best_from inst best [] = best
best_from inst none ((id, node) ∷ nodes) =
    best_from inst (if node_has_capacity node inst then some (id, score node) else none) nodes
best_from inst (some (n, s)) ((id, node) ∷ nodes) =
    best_from inst
      (if node_has_capacity node inst && ltb s (score node)
        then some (id, score node)
        else some (n, s))
      nodes

unfoldable pub find_best_node_by_score : Nodes → SandboxInstance → Option ℕ
unfolding best_from
find_best_node_by_score nodes inst = elim (best_from inst none nodes) [
  | none ↦ none
  | some (id, s) ↦ some id
]

unfoldable pub find_best_numa_node : Nodes → SandboxInstance → Option ℕ
find_best_numa_node [] inst = none
find_best_numa_node (entry ∷ nodes) inst = elim (check_preferred_node (entry ∷ nodes) inst) [
  | some preferred ↦ some preferred
  | none ↦ find_best_node_by_score (entry ∷ nodes) inst
]

abbrev pub Placement : Type 0
Placement = Dict String (Option ℕ)

-- `placement[inst.instance_id] = node` for each instance
unfoldable pub place_all : Option ℕ → List SandboxInstance → Placement → Placement
place_all target [] placement = placement
place_all target (i ∷ rest) placement = place_all target rest (put placement i.instance_id target)

unfoldable pub try_single_node_placement : Nodes → List SandboxInstance → Option ℕ
try_single_node_placement [] instances = none
try_single_node_placement ((id, node) ∷ nodes) instances =
    let rest = try_single_node_placement nodes instances in
    if node_can_fit_all node instances then some id else rest

-- `sorted(…, key=available_memory_mb, reverse=True)` is stable.
unfoldable pub insert_node : ℕ × NumaTopology → Nodes → Nodes
insert_node n [] = n ∷ []
insert_node n (m ∷ ms) =
    let rest = insert_node n ms in
    if leb m.1.available_memory_mb n.1.available_memory_mb then n ∷ m ∷ ms else m ∷ rest

unfoldable pub by_memory : Nodes → Nodes
by_memory [] = []
by_memory (n ∷ ns) = insert_node n (by_memory ns)

-- The loop of `_greedy_multi_node_placement`. Taking the instances that fit out of `remaining`,
-- one `remove` for each, leaves those that do not fit: equal instances fit alike.
unfoldable pub greedy : Nodes → List SandboxInstance → Placement → Placement
greedy [] remaining placement = place_all none remaining placement
greedy ((id, node) ∷ nodes) [] placement = placement
greedy ((id, node) ∷ nodes) (i ∷ rest) placement =
    greedy nodes (keep (λ inst. not (node_has_capacity node inst)) (i ∷ rest))
      (place_all (some id) (keep (node_has_capacity node) (i ∷ rest)) placement)

unfoldable pub greedy_multi_node_placement : Nodes → List SandboxInstance → Placement
unfolding by_memory insert_node
greedy_multi_node_placement nodes instances = greedy (by_memory nodes) instances []

unfoldable pub find_best_numa_placement : Nodes → List SandboxInstance → Placement
find_best_numa_placement [] instances = place_all none instances []
find_best_numa_placement (entry ∷ nodes) instances =
    elim (try_single_node_placement (entry ∷ nodes) instances) [
      | some id ↦ place_all (some id) instances []
      | none ↦ greedy_multi_node_placement (entry ∷ nodes) instances
    ]
