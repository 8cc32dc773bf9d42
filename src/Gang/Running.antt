-- ===== src/Gang/Running.antt =====
-- The gangs that run are those in the list.
use photon_kernel_sil.Prelude.{
  ℕ, ◌-◌, String, Bool, true, false, ◌&&◌, List, [], ◌∷◌, ◌++◌, Option, none, some, ◌≡◌, inl, inr,
  refl, arith, ltb, ◌==◌, nat_eq, string_eq, ==_iff, count, count-append, length, Option-cases,
  Bool-cases, if◌then◌else◌,
}
use photon_kernel_sil.Prelude.Dict.{Dict, get, put, get-put}
use photon_kernel_sil.Gang.Types.{
  GangStatus-discrete, pending, resources_ready, running, GangJob, GangScheduler, gang_status_eq,
}
use photon_kernel_sil.Gang.Topology.{find_best_numa_placement}
use photon_kernel_sil.Gang.Scheduler.{
  init, submit_gang, try_allocate_gang, unassigned, perform_gang_allocation, started, timed_out,
  start_gang, finished, complete_gang, evicted, remove_first,
}
use photon_kernel_sil.Gang.Runs.{
  Operation, registers, detects, submits, allocates, starts, completes, evicts, step, Reachable,
  new, after, Fresh,
}
use photon_kernel_sil.Gang.Atomic.{allocation_cases}
use photon_kernel_sil.Gang.Starts.{Eviction, nobody, one, evict_lem}

-- How often the id of this gang should be in the list of those that run
abbrev pub running_times : Option GangJob → ℕ
running_times none = 0
running_times (some gang) = if gang.status == running then 1 else 0

abbrev pub times : String → List String → ℕ
times id ids = count (λ j. j == id) ids

-- An id is in the list of those that run just once where its gang is running, and else not at all.
abbrev pub Agree : Dict String GangJob → List String → Type 0
Agree gangs ids = (id : String) → times id ids ≡ running_times (get gangs id)

times-remove_first :
    (k id : String) (ids : List String)
    → times id (remove_first k ids) ≡ (if k == id then times id ids - 1 else times id ids)
unfolding remove_first
times-remove_first k id [] = ground arith
times-remove_first k id (j ∷ ids) =
    ground (arith, times-remove_first k id ids, ==_iff j k, ==_iff j id, ==_iff k id)

module _ (gangs : Dict String GangJob) (ids : List String) (agree : Agree gangs ids) (k : String)
    (g : GangJob) where
  -- A gang is stored that runs as little as the one before it.
  put-Agree : running_times (some g) ≡ running_times (get gangs k) → Agree (put gangs k g) ids
  put-Agree e id = ground (arith, agree id, get-put gangs k id g, ==_iff k id)

  append-Agree :
      running_times (get gangs k) ≡ 0
      → running_times (some g) ≡ 1
      → Agree (put gangs k g) (ids ++ k ∷ [])
  append-Agree e f id =
      ground (
        arith,
        agree id,
        get-put gangs k id g,
        ==_iff k id,
        count-append (λ j. j == id) ids (k ∷ []),
      )

  remove-Agree : running_times (some g) ≡ 0 → Agree (put gangs k g) (remove_first k ids)
  remove-Agree e id =
      ground (arith, agree id, get-put gangs k id g, ==_iff k id, times-remove_first k id ids)

allocation-Agree :
    (s : GangScheduler) (gang_id : String)
    → Agree s.gangs s.running_gangs
    → Agree (try_allocate_gang s gang_id).0.gangs (try_allocate_gang s gang_id).0.running_gangs
unfolding perform_gang_allocation GangStatus-discrete
allocation-Agree s gang_id agree = elim (allocation_cases s gang_id) [
  | inl (reason, e) ↦ rw e agree
  | inr (g, here, waiting, few, e) ↦
      elim (Bool-cases (
        ltb 0 (length (unassigned (find_best_numa_placement s.numa_nodes g.instances)))
        && g.all_or_nothing)) [
          | inl m ↦
              rw (e, m, perform_gang_allocation)
                (put-Agree s.gangs s.running_gangs agree gang_id _ (rw (here, waiting) refl))
          | inr m ↦
              rw (e, m, perform_gang_allocation)
                (put-Agree s.gangs s.running_gangs agree gang_id _ (rw (here, waiting) refl))
        ]
]

start-Agree :
    (clock : ℕ → ℕ) (s : GangScheduler) (gang_id : String)
    → Agree s.gangs s.running_gangs
    → Agree (start_gang clock s gang_id).0.gangs (start_gang clock s gang_id).0.running_gangs
unfolding start_gang started GangStatus-discrete
start-Agree clock s gang_id agree = elim (Option-cases (get s.gangs gang_id)) [
  | inl e ↦ rw (e, start_gang) agree
  | inr (g, e) ↦ elim (Bool-cases (g.status == resources_ready)) [
    | inr r ↦ rw (e, r, start_gang) agree
    | inl r ↦
        let ready = (==_iff g.status resources_ready).0 r in
        elim (Bool-cases (timed_out g (clock 0))) [
          | inl late ↦
              rw (e, r, late, start_gang)
                (put-Agree s.gangs s.running_gangs agree gang_id _ (rw (e, ready) refl))
          | inr on_time ↦
              rw (e, r, on_time, start_gang)
                (append-Agree s.gangs s.running_gangs agree gang_id _ (rw (e, ready) refl) refl)
        ]
  ]
]

finished-idle :
    (now : ℕ) (success : Bool) (g : GangJob) → running_times (some (finished now success g)) ≡ 0
unfolding finished GangStatus-discrete
finished-idle now true g = refl
finished-idle now false g = refl

complete-Agree :
    (now : ℕ) (s : GangScheduler) (gang_id : String) (success : Bool)
    → Agree s.gangs s.running_gangs
    → Agree
        (complete_gang now s gang_id success).gangs
        (complete_gang now s gang_id success).running_gangs
unfolding complete_gang
complete-Agree now s gang_id success agree = elim (Option-cases (get s.gangs gang_id)) [
  | inl e ↦ rw (e, complete_gang) agree
  | inr (g, e) ↦
      rw (e, complete_gang)
        (remove-Agree s.gangs s.running_gangs agree gang_id _ (finished-idle now success g))
]

Eviction-Agree :
    (s s' : GangScheduler) (ids : List String)
    → Eviction s s' ids
    → Agree s.gangs s.running_gangs
    → Agree s'.gangs s'.running_gangs
unfolding evicted GangStatus-discrete
Eviction-Agree s s' _ (nobody e _) agree = rw e agree
Eviction-Agree s s' _ (one id g here low found e) agree =
    rw e (remove-Agree s.gangs s.running_gangs agree id (evicted g) refl)

submit-Agree :
    (s : GangScheduler) (gang : GangJob)
    → (get s.gangs gang.gang_id ≡ none) × (gang.status ≡ pending)
    → Agree s.gangs s.running_gangs
    → Agree (submit_gang s gang).0.gangs (submit_gang s gang).0.running_gangs
unfolding submit_gang GangStatus-discrete
submit-Agree s gang (absent, waiting) agree =
    put-Agree s.gangs s.running_gangs agree gang.gang_id gang (rw (absent, waiting) refl)

step-Agree :
    (s : GangScheduler) (o : Operation)
    → Fresh s o
    → Agree s.gangs s.running_gangs
    → Agree (step s o).gangs (step s o).running_gangs
unfolding step
step-Agree s (registers node) fresh agree = agree
step-Agree s (detects cpu_count) fresh agree = agree
step-Agree s (submits gang) fresh agree = submit-Agree s gang fresh agree
step-Agree s (allocates gang_id) fresh agree = allocation-Agree s gang_id agree
step-Agree s (starts clock gang_id) fresh agree = start-Agree clock s gang_id agree
step-Agree s (completes now gang_id success) fresh agree =
    complete-Agree now s gang_id success agree
step-Agree s (evicts needed) fresh agree = Eviction-Agree s _ _ (evict_lem s needed) agree

-- In every state that a new scheduler can get to, where no id is submitted twice and each gang is
-- submitted pending, an id is in the list of the gangs that run once where its gang is running, and
-- not at all where it is not.
pub Reachable-Agree : (s : GangScheduler) → Reachable s → Agree s.gangs s.running_gangs
unfolding init get
Reachable-Agree _ (new nodes) = λ id. refl
Reachable-Agree _ (after s o r fresh) = step-Agree s o fresh (Reachable-Agree s r)
