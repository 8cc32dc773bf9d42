-- ===== src/Gang/Totals.antt =====
-- The placement leaves no instance out.
use photon_kernel_sil.Prelude.{
  ℕ, String, Bool, true, false, not, ◌||◌, List, [], ◌∷◌, Option, none, some, ◌≡◌, inl, inr, refl,
  arith, ◌==◌, nat_eq, string_eq, any, All, keep, Option-cases, Bool-cases,
}
use photon_kernel_sil.Prelude.Dict.{get, put, get-put}
use photon_kernel_sil.Gang.Types.{NumaTopology, SandboxInstance, Nodes}
use photon_kernel_sil.Gang.Topology.{
  node_has_capacity, node_can_fit_all, place_all, Placement, try_single_node_placement, insert_node,
  by_memory, greedy, greedy_multi_node_placement, find_best_numa_placement,
}

-- Some instance of the list has the id.
abbrev pub names : String → List SandboxInstance → Bool
names name instances = any (λ i. i.instance_id == name) instances

abbrev pub has_key : Placement → String → Bool
has_key placement name = elim (get placement name) [ none ↦ false | some target ↦ true ]

has_key-put :
    (placement : Placement) (k name : String) (target : Option ℕ)
    → has_key (put placement k target) name ≡ ((k == name) || has_key placement name)
has_key-put placement k name target = ground (arith, get-put placement k name target)

has_key-place_all :
    (target : Option ℕ) (instances : List SandboxInstance) (placement : Placement) (name : String)
    → has_key (place_all target instances placement) name
      ≡ (names name instances || has_key placement name)
unfolding place_all
has_key-place_all target [] placement name = refl
has_key-place_all target (i ∷ rest) placement name = ground (
  arith,
  has_key-place_all target rest (put placement i.instance_id target) name,
  has_key-put placement i.instance_id name target,
)

names-split :
    (p : SandboxInstance → Bool) (name : String) (is : List SandboxInstance)
    → (names name (keep p is) || names name (keep (λ i. not (p i)) is)) ≡ names name is
names-split p name [] = refl
names-split p name (i ∷ is) = ground (arith, names-split p name is)

has_key-greedy :
    (nodes : Nodes) (remaining : List SandboxInstance) (placement : Placement) (name : String)
    → has_key (greedy nodes remaining placement) name
      ≡ (names name remaining || has_key placement name)
unfolding greedy
has_key-greedy [] remaining placement name = has_key-place_all none remaining placement name
has_key-greedy ((id, node) ∷ nodes) [] placement name = refl
has_key-greedy ((id, node) ∷ nodes) (i ∷ rest) placement name =
    let fit = node_has_capacity node in
    let is = i ∷ rest in
    ground (
      arith,
      has_key-greedy nodes (keep (λ inst. not (fit inst)) is)
          (place_all (some id) (keep fit is) placement) name,
      has_key-place_all (some id) (keep fit is) placement name,
      names-split fit name is,
    )

-- The placement has an entry for exactly the ids of the instances.
pub has_key-placement :
    (nodes : Nodes) (instances : List SandboxInstance) (name : String)
    → has_key (find_best_numa_placement nodes instances) name ≡ names name instances
unfolding find_best_numa_placement greedy_multi_node_placement get
has_key-placement [] instances name = ground (arith, has_key-place_all none instances [] name)
has_key-placement (e ∷ nodes) instances name =
    elim (Option-cases (try_single_node_placement (e ∷ nodes) instances)) [
      | inl s ↦ ground (arith, has_key-greedy (by_memory (e ∷ nodes)) instances [] name)
      | inr (id, s) ↦ ground (arith, has_key-place_all (some id) instances [] name)
    ]

keep-All :
    (p : SandboxInstance → Bool) (is : List SandboxInstance)
    → All (λ i. p i ≡ true) is
    → keep p is ≡ is
keep-All p [] h = refl
keep-All p (i ∷ is) h = ground (arith, keep-All p is h.1, h.0)

keep_none :
    (p : SandboxInstance → Bool) (is : List SandboxInstance)
    → All (λ i. p i ≡ true) is
    → keep (λ i. not (p i)) is ≡ []
keep_none p [] h = refl
keep_none p (i ∷ is) h = ground (arith, keep_none p is h.1, h.0)

-- Where each instance fits on the only node, all are placed there, whether or not they fit together.
pub overcommits :
    (id : ℕ) (node : NumaTopology) (instances : List SandboxInstance)
    → All (λ i. node_has_capacity node i ≡ true) instances
    → find_best_numa_placement ((id, node) ∷ []) instances ≡ place_all (some id) instances []
unfolding find_best_numa_placement greedy_multi_node_placement try_single_node_placement by_memory
    insert_node greedy place_all
overcommits id node instances h = elim (Bool-cases (node_can_fit_all node instances)) [
  | inl e ↦ rw (e, find_best_numa_placement) refl
  | inr e ↦ rw (e, find_best_numa_placement) (spread instances h)
]
  where
    spread :
        (is : List SandboxInstance)
        → All (λ i. node_has_capacity node i ≡ true) is
        → greedy ((id, node) ∷ []) is [] ≡ place_all (some id) is []
    spread [] h = refl
    spread (i ∷ is) h =
        rw
          (
            keep-All (node_has_capacity node) (i ∷ is) h,
            keep_none (node_has_capacity node) (i ∷ is) h,
          )
          refl
