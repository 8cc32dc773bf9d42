-- ===== src/Gang/Scheduler.antt =====
-- evolution/gang_scheduler.py: `GangScheduler`. A gang is a shared object in the source; a method
-- changes the one under its key, and here stores it again. `clock` gives the readings of the time.
use photon_kernel_sil.Prelude.{
  ℕ, ◌+◌, ◌-◌, ◌*◌, ◌/◌, String, Bool, true, false, not, ◌&&◌, List, [], ◌∷◌, ◌++◌, Option, none,
  some, ltb, leb, ◌==◌, string_eq, nat_eq, any, map, length, if◌then◌else◌,
}
use photon_kernel_sil.Prelude.Dict.{Dict, get, get_or, put, values}
use photon_kernel_sil.Prelude.Text.{text_append, decimal}
use photon_kernel_sil.Gang.Types.{
  best_effort, pending, resources_ready, running, completed, failed, timeout, GangStatus,
  status_value, SandboxInstance, GangJob, GangScheduler, Nodes, second, qos_eq, gang_status_eq,
}
use photon_kernel_sil.Gang.Topology.{Placement, find_best_numa_placement}

unfoldable pub init : Nodes → GangScheduler
init nodes = record {
  gangs = [];
  running_gangs = [];
  numa_nodes = nodes;
  max_concurrent_gangs = 10;
  eviction_enabled = true;
}

unfoldable pub submit_gang : GangScheduler → GangJob → GangScheduler × String
submit_gang s gang = (record s { gangs = put s.gangs gang.gang_id gang }, gang.gang_id)

-- `_validate_gang_for_allocation`: the gang, or the reason why not.
pub data Validity : Type 0 where
  valid : GangJob → Validity
  invalid : String → Validity

unfoldable pub validate_gang_for_allocation : GangScheduler → String → Validity
validate_gang_for_allocation s gang_id = elim (get s.gangs gang_id) [
  | none ↦ invalid "Gang not found"
  | some gang ↦
      if not (gang.status == pending)
      then invalid
          (text_append "Gang status is " (text_append (status_value gang.status) ", not pending"))
      else if leb s.max_concurrent_gangs (length s.running_gangs)
      then invalid "Max concurrent gangs reached"
      else valid gang
]

-- The ids that the placement gives no node.
unfoldable pub unassigned : Placement → List String
unassigned [] = []
unassigned ((id, none) ∷ placement) = id ∷ unassigned placement
unassigned ((id, some node) ∷ placement) = unassigned placement

-- `placement.get(inst.instance_id)`
abbrev pub node_in : Placement → SandboxInstance → Option ℕ
node_in placement inst = elim (get placement inst.instance_id) [ none ↦ none | some node ↦ node ]

unfoldable pub allocate : Placement → SandboxInstance → SandboxInstance
allocate placement inst = record inst {
  assigned_numa_node = node_in placement inst;
  status = "allocated";
}

abbrev pub store : GangScheduler → String → GangJob → GangScheduler
store s gang_id gang = record s { gangs = put s.gangs gang_id gang }

unfoldable pub perform_gang_allocation :
    GangScheduler → String → GangJob → GangScheduler × Bool × String
unfolding allocate
perform_gang_allocation s gang_id gang =
    let placement = find_best_numa_placement s.numa_nodes gang.instances in
    let missing = unassigned placement in
    if ltb 0 (length missing) && gang.all_or_nothing
    then (
      store s gang_id (record gang { status = pending }),
      false,
      text_append "Cannot allocate all instances (unassigned: "
          (text_append (decimal (length missing)) ")"),
    )
    else (
      store s gang_id (record gang {
        instances = map (allocate placement) gang.instances;
        status = resources_ready;
      }),
      true,
      "All resources allocated",
    )

unfoldable pub try_allocate_gang : GangScheduler → String → GangScheduler × Bool × String
unfolding validate_gang_for_allocation
try_allocate_gang s gang_id = elim (validate_gang_for_allocation s gang_id) [
  | invalid reason ↦ (s, false, reason)
  | valid gang ↦ perform_gang_allocation s gang_id gang
]

abbrev pub with_status : String → SandboxInstance → SandboxInstance
with_status status inst = record inst { status = status }

-- `time.time() - gang.submit_time > gang.timeout_seconds`
abbrev pub timed_out : GangJob → ℕ → Bool
timed_out gang now = ltb (gang.submit_time + gang.timeout_seconds * second) now

unfoldable pub started : ℕ → GangJob → GangJob
started now gang = record gang {
  start_time = some now;
  status = running;
  instances = map (with_status "running") gang.instances;
}

unfoldable pub start_gang : (ℕ → ℕ) → GangScheduler → String → GangScheduler × Bool × String
unfolding started
start_gang clock s gang_id = elim (get s.gangs gang_id) [
  | none ↦ (s, false, "Gang not found")
  | some gang ↦
      if not (gang.status == resources_ready)
      then (
        s,
        false,
        text_append "Gang not ready (status: " (text_append (status_value gang.status) ")"),
      )
      else if timed_out gang (clock 0)
      then (store s gang_id (record gang { status = timeout }), false, "Gang allocation timeout")
      else (
        record (store s gang_id (started (clock 1) gang)) {
          running_gangs = s.running_gangs ++ gang_id ∷ [];
        },
        true,
        "All instances started atomically",
      )
]

-- `list.remove`, of an id that may be absent
unfoldable pub remove_first : String → List String → List String
remove_first id [] = []
remove_first id (x ∷ xs) = let rest = remove_first id xs in if x == id then xs else x ∷ rest

unfoldable pub finished : ℕ → Bool → GangJob → GangJob
finished now success gang = record gang {
  completion_time = some now;
  status = if success then completed else failed;
  instances = map (with_status (if success then "completed" else "failed")) gang.instances;
}

unfoldable pub complete_gang : ℕ → GangScheduler → String → Bool → GangScheduler
unfolding finished remove_first
complete_gang now s gang_id success = elim (get s.gangs gang_id) [
  | none ↦ s
  | some gang ↦ record (store s gang_id (finished now success gang)) {
    running_gangs = remove_first gang_id s.running_gangs;
  }
]

unfoldable pub has_low_priority : GangJob → Bool
has_low_priority gang = any (λ i. i.qos_class == best_effort) gang.instances

unfoldable pub find_evictable_gangs : GangScheduler → List String → List String
unfolding has_low_priority
find_evictable_gangs s [] = []
find_evictable_gangs s (id ∷ ids) =
    let rest = find_evictable_gangs s ids in
    elim (get s.gangs id) [
      | none ↦ rest
      | some gang ↦ if has_low_priority gang then id ∷ rest else rest
    ]

-- `_check_resources_satisfied`, which the source leaves at `True`
unfoldable pub resources_satisfied : Dict String ℕ → Bool
resources_satisfied needed = true

unfoldable pub evicted : GangJob → GangJob
evicted gang = record gang {
  status = failed;
  instances = map (with_status "evicted") gang.instances;
}

-- `_perform_eviction`: an id in the list is a running one, so `remove` finds it.
unfoldable pub perform_eviction :
    GangScheduler → List String → Dict String ℕ → GangScheduler × List String
unfolding evicted remove_first resources_satisfied
perform_eviction s [] needed = (s, [])
perform_eviction s (id ∷ ids) needed =
    let skip = perform_eviction s ids needed in
    elim (get s.gangs id) [
      | none ↦ skip
      | some gang ↦
          let s' = record (store s id (evicted gang)) {
            running_gangs = remove_first id s.running_gangs;
          } in
          let more = perform_eviction s' ids needed in
          if resources_satisfied needed then (s', id ∷ []) else (more.0, id ∷ more.1)
    ]

unfoldable pub evict_low_priority_gangs :
    GangScheduler → Dict String ℕ → GangScheduler × List String
unfolding find_evictable_gangs perform_eviction
evict_low_priority_gangs s needed =
    if not s.eviction_enabled
    then (s, [])
    else perform_eviction s (find_evictable_gangs s s.running_gangs) needed

-- `get_gang_status`; the duration in milliseconds, for a clock that does not run back.
pub record StatusReport : Type 0 where
  pub gang_id : String
  pub status : GangStatus
  pub instances_count : ℕ
  pub submit_time : ℕ
  pub start_time : Option ℕ
  pub completion_time : Option ℕ
  pub duration_ms : Option ℕ
  pub all_or_nothing : Bool

duration : GangJob → Option ℕ
duration gang = elim gang.completion_time [
  | none ↦ none
  | some t ↦ if t == 0 then none else some ((t - gang.submit_time) / 1000)
]

unfoldable pub get_gang_status : GangScheduler → String → Option StatusReport
unfolding duration
get_gang_status s gang_id = elim (get s.gangs gang_id) [
  | none ↦ none
  | some gang ↦ some (record {
    gang_id = gang.gang_id;
    status = gang.status;
    instances_count = length gang.instances;
    submit_time = gang.submit_time;
    start_time = gang.start_time;
    completion_time = gang.completion_time;
    duration_ms = duration gang;
    all_or_nothing = gang.all_or_nothing;
  })
]

pub record Stats : Type 0 where
  pub total_gangs : ℕ
  pub running_gangs : ℕ
  pub status_counts : Dict String ℕ
  pub max_concurrent_gangs : ℕ
  pub eviction_enabled : Bool
  pub numa_nodes : ℕ

count_statuses : Dict String ℕ → List GangJob → Dict String ℕ
count_statuses counts [] = counts
count_statuses counts (g ∷ gs) =
    let key = status_value g.status in count_statuses (put counts key (get_or counts key 0 + 1)) gs

unfoldable pub get_stats : GangScheduler → Stats
unfolding count_statuses
get_stats s = record {
  total_gangs = length s.gangs;
  running_gangs = length s.running_gangs;
  status_counts = count_statuses [] (values s.gangs);
  max_concurrent_gangs = s.max_concurrent_gangs;
  eviction_enabled = s.eviction_enabled;
  numa_nodes = length s.numa_nodes;
}
