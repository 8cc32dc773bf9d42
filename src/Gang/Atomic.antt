-- ===== src/Gang/Atomic.antt =====
-- The allocation and the start of a gang, all instances or none.
use photon_kernel_sil.Prelude.{
  ℕ, ◌<◌, String, true, false, ◌&&◌, List, [], ◌∷◌, map, none, some, ◌≡◌, ◌⊎◌, ◌≢◌, inl, inr, refl,
  sym, ap, ◌∙◌, arith, ltb, ◌==◌, nat_eq, string_eq, ==_iff, All, All-mono, length, Option-cases,
  Bool-cases,
}
use photon_kernel_sil.Prelude.Dict.{Dict, get, put, get-put_self, Entries-get}
use photon_kernel_sil.Gang.Types.{
  pending, resources_ready, GangJob, GangScheduler, SandboxInstance, Nodes, gang_status_eq,
}
use photon_kernel_sil.Gang.Topology.{Placement, find_best_numa_placement}
use photon_kernel_sil.Gang.Scheduler.{
  Validity, valid, invalid, validate_gang_for_allocation, unassigned, allocate,
  perform_gang_allocation, try_allocate_gang,
}
use photon_kernel_sil.Gang.Placement.{Suits, matched, members}
use photon_kernel_sil.Gang.Assigned.{placement-Suits}
use photon_kernel_sil.Gang.Totals.{names, has_key-placement}

put-same : (d : Dict String GangJob) (k : String) (g : GangJob) → get d k ≡ some g → put d k g ≡ d
unfolding get put
put-same [] k g h = cc
put-same ((j, w) ∷ d) k g h = ground (arith, put-same d k g)

-- The instance has a node, with capacity for an instance of its id.
abbrev pub Placed : Nodes → List SandboxInstance → SandboxInstance → Type 0
Placed nodes instances i =
    (id : ℕ) × (i.assigned_numa_node ≡ some id) × (matched nodes instances i.instance_id id ≡ true)

none_missing :
    (placement : Placement) (name : String)
    → ltb 0 (length (unassigned placement)) ≡ false
    → get placement name ≢ some none
unfolding unassigned get
none_missing [] name h e = cc
none_missing ((k, none) ∷ placement) name h e = ground arith
none_missing ((k, some id) ∷ placement) name h e = ground (arith, none_missing placement name)

allocate-Placed :
    (nodes : Nodes) (instances : List SandboxInstance) (i : SandboxInstance)
    → ltb 0 (length (unassigned (find_best_numa_placement nodes instances))) ≡ false
    → names i.instance_id instances ≡ true
    → Placed nodes instances (allocate (find_best_numa_placement nodes instances) i)
unfolding allocate
allocate-Placed nodes instances i h n =
    let placement = find_best_numa_placement nodes instances in
    elim (Option-cases (get placement i.instance_id)) [
      | inl e ↦ ground (arith, has_key-placement nodes instances i.instance_id)
      | inr (none, e) ↦ absurd (none_missing placement i.instance_id h e)
      | inr (some id, e) ↦ (
        id,
        ground arith,
        Entries-get (Suits nodes instances) placement i.instance_id (some id)
            (placement-Suits nodes instances) e,
      )
    ]

All-Placed :
    (nodes : Nodes) (instances is : List SandboxInstance)
    → ltb 0 (length (unassigned (find_best_numa_placement nodes instances))) ≡ false
    → All (λ i. names i.instance_id instances ≡ true) is
    → All (Placed nodes instances) (map (allocate (find_best_numa_placement nodes instances)) is)
All-Placed nodes instances [] h n = tt
All-Placed nodes instances (i ∷ is) h n =
    (allocate-Placed nodes instances i h n.0, All-Placed nodes instances is h n.1)

All-named :
    (instances : List SandboxInstance) → All (λ i. names i.instance_id instances ≡ true) instances
All-named instances =
    All-mono _ _
      (λ i f.
        f (λ j. j.instance_id == i.instance_id)
          (ground (arith, ==_iff i.instance_id i.instance_id)))
      instances (members instances)

-- What is known of a gang that passes the validation.
pub validated :
    (s : GangScheduler) (gang_id : String) (gang : GangJob)
    → validate_gang_for_allocation s gang_id ≡ valid gang
    → (get s.gangs gang_id ≡ some gang)
      × (gang.status ≡ pending)
      × (length s.running_gangs < s.max_concurrent_gangs)
unfolding validate_gang_for_allocation
validated s gang_id gang h = elim (Option-cases (get s.gangs gang_id)) [
  | inl e ↦ ground arith
  | inr (g, e) ↦ elim (Bool-cases (g.status == pending)) [
    | inl p ↦ ground (arith, ==_iff g.status pending)
    | inr p ↦ ground arith
  ]
]

valid_or_not :
    (v : Validity)
    → ((reason : String) × (v ≡ invalid reason)) ⊎ ((gang : GangJob) × (v ≡ valid gang))
valid_or_not (invalid reason) = inl (reason, refl)
valid_or_not (valid gang) = inr (gang, refl)

-- An allocation stops at the validation, or is performed on the gang that passes it.
pub allocation_cases :
    (s : GangScheduler) (gang_id : String)
    → ((reason : String) × (try_allocate_gang s gang_id ≡ (s, false, reason)))
      ⊎ ((g : GangJob) × (get s.gangs gang_id ≡ some g)
          × (g.status ≡ pending)
          × (length s.running_gangs < s.max_concurrent_gangs)
          × (try_allocate_gang s gang_id ≡ perform_gang_allocation s gang_id g))
unfolding try_allocate_gang
allocation_cases s gang_id = elim (valid_or_not (validate_gang_for_allocation s gang_id)) [
  | inl (reason, e) ↦ inl (reason, rw (e, try_allocate_gang) refl)
  | inr (g, e) ↦
      let (here, waiting, few) = validated s gang_id g e in
      inr (g, here, waiting, few, rw (e, try_allocate_gang) refl)
]

perform-All :
    (s : GangScheduler) (gang_id : String) (gang : GangJob)
    → gang.all_or_nothing ≡ true
    → (perform_gang_allocation s gang_id gang).1 ≡ true
    → (g : GangJob) × (get (perform_gang_allocation s gang_id gang).0.gangs gang_id ≡ some g)
      × (g.status ≡ resources_ready)
      × All (Placed s.numa_nodes gang.instances) g.instances
unfolding perform_gang_allocation
perform-All s gang_id gang all h =
    elim (Bool-cases
      (ltb 0 (length (unassigned (find_best_numa_placement s.numa_nodes gang.instances))))) [
        | inl m ↦ ground arith
        | inr m ↦
            rw (m, perform_gang_allocation)
              (
                _,
                get-put_self s.gangs gang_id _,
                refl,
                All-Placed s.numa_nodes gang.instances gang.instances m (All-named gang.instances),
              )
      ]

-- The allocation of a gang that asks for all or nothing succeeds only while fewer gangs run than
-- the limit. Its id then finds it ready, and each of its instances has a node with capacity for an
-- instance of that id.
pub try_allocate-All :
    (s : GangScheduler) (gang_id : String) (gang : GangJob)
    → get s.gangs gang_id ≡ some gang
    → gang.all_or_nothing ≡ true
    → (try_allocate_gang s gang_id).1 ≡ true
    → (length s.running_gangs < s.max_concurrent_gangs)
      × ((g : GangJob) × (get (try_allocate_gang s gang_id).0.gangs gang_id ≡ some g)
          × (g.status ≡ resources_ready)
          × All (Placed s.numa_nodes gang.instances) g.instances)
try_allocate-All s gang_id gang found all h = elim (allocation_cases s gang_id) [
  | inl (reason, e) ↦ ground arith
  | inr (g, here, waiting, few, e) ↦
      let same_gang : g ≡ gang = ground arith in
      let e' = e ∙ ap (perform_gang_allocation s gang_id) same_gang in
      (few, rw e' (perform-All s gang_id gang all (sym (ap (λ r. r.1) e') ∙ h)))
]

perform_refuses :
    (s : GangScheduler) (gang_id : String) (gang : GangJob)
    → get s.gangs gang_id ≡ some gang
    → gang.status ≡ pending
    → (perform_gang_allocation s gang_id gang).1 ≡ false
    → (perform_gang_allocation s gang_id gang).0 ≡ s
unfolding perform_gang_allocation
perform_refuses s gang_id gang here waiting h =
    let same_gang : record gang { status = pending } ≡ gang =
      ap (λ p. record gang { status = p }) (sym waiting) in
    let same_gangs = ap (put s.gangs gang_id) same_gang ∙ put-same s.gangs gang_id gang here in
    elim (Bool-cases (
      ltb 0 (length (unassigned (find_best_numa_placement s.numa_nodes gang.instances)))
      && gang.all_or_nothing)) [
        | inl m ↦ rw (m, perform_gang_allocation) (ap (λ d. record s { gangs = d }) same_gangs)
        | inr m ↦ ground arith
      ]

-- An allocation that does not succeed changes nothing.
pub try_allocate_refuses :
    (s : GangScheduler) (gang_id : String)
    → (try_allocate_gang s gang_id).1 ≡ false
    → (try_allocate_gang s gang_id).0 ≡ s
try_allocate_refuses s gang_id h = elim (allocation_cases s gang_id) [
  | inl (reason, e) ↦ ap (λ r. r.0) e
  | inr (g, here, waiting, few, e) ↦
      ap (λ r. r.0) e ∙ perform_refuses s gang_id g here waiting (sym (ap (λ r. r.1) e) ∙ h)
]
