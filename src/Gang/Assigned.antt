-- ===== src/Gang/Assigned.antt =====
-- What the placement of a gang gives to its instances.
use photon_kernel_sil.Prelude.{
  ℕ, true, ◌&&◌, List, [], ◌∷◌, none, some, ◌≡◌, inl, inr, subst, arith, ◌==◌, nat_eq, string_eq,
  ==_iff, All, All-mono, Option-cases, Bool-cases,
}
use photon_kernel_sil.Prelude.Dict.{Entries}
use photon_kernel_sil.Gang.Types.{NumaTopology, SandboxInstance, Nodes}
use photon_kernel_sil.Gang.Topology.{
  node_has_capacity, node_can_fit_all, try_single_node_placement, by_memory,
  greedy_multi_node_placement, find_best_numa_placement,
}
use photon_kernel_sil.Gang.Placement.{
  Suits, members, All-by_memory, place_all-Entries, greedy-Entries,
}

-- A node that holds all instances together has capacity for each of them.
fits_each :
    (node : NumaTopology) (instances : List SandboxInstance)
    → node_can_fit_all node instances ≡ true
    → All (λ i. node_has_capacity node i ≡ true) instances
unfolding node_can_fit_all node_has_capacity
fits_each node [] h = tt
fits_each node (i ∷ rest) h = (ground arith, fits_each node rest (ground arith))

All-Suits :
    (nodes : Nodes) (instances : List SandboxInstance)
    → All
        (λ e.
          All
            (λ i. node_has_capacity e.1 i ≡ true → Suits nodes instances i.instance_id (some e.0))
            instances)
        nodes
All-Suits nodes instances =
    All-mono _ _
      (λ e in_nodes.
        All-mono _ _
          (λ i in_instances fit. in_instances _ (
            ground (
              arith,
              in_nodes (λ x. (x.0 == e.0) && node_has_capacity x.1 i),
              ==_iff e.0 e.0,
              ==_iff i.instance_id i.instance_id,
            )))
          instances (members instances))
      nodes (members nodes)

single-Suits :
    (nodes all : Nodes) (instances is : List SandboxInstance) (id : ℕ)
    → All
        (λ e.
          All
            (λ i. node_has_capacity e.1 i ≡ true → Suits all instances i.instance_id (some e.0))
            is)
        nodes
    → try_single_node_placement nodes is ≡ some id
    → All (λ i. Suits all instances i.instance_id (some id)) is
unfolding try_single_node_placement
single-Suits [] all instances is id h e = cc
single-Suits ((j, node) ∷ nodes) all instances is id h e =
    elim (Bool-cases (node_can_fit_all node is)) [
      | inl fit ↦
          let here : j ≡ id = ground arith in
          subst (λ k. All (λ i. Suits all instances i.instance_id (some k)) is) here
            (apply is (fits_each node is fit) h.0)
      | inr full ↦ single-Suits nodes all instances is id h.1 (ground arith)
    ]
  where
    apply :
        (is : List SandboxInstance)
        → All (λ i. node_has_capacity node i ≡ true) is
        → All (λ i. node_has_capacity node i ≡ true → Suits all instances i.instance_id (some j)) is
        → All (λ i. Suits all instances i.instance_id (some j)) is
    apply [] a b = tt
    apply (i ∷ is) a b = (b.0 a.0, apply is a.1 b.1)

All-none :
    (nodes : Nodes) (instances is : List SandboxInstance)
    → All (λ i. Suits nodes instances i.instance_id none) is
All-none nodes instances [] = tt
All-none nodes instances (i ∷ is) = (tt, All-none nodes instances is)

-- The placement gives an id of an instance only to a node with capacity for an instance of that id.
pub placement-Suits :
    (nodes : Nodes) (instances : List SandboxInstance)
    → Entries (Suits nodes instances) (find_best_numa_placement nodes instances)
unfolding find_best_numa_placement greedy_multi_node_placement
placement-Suits [] instances =
    place_all-Entries (Suits [] instances) none instances [] tt (All-none [] instances instances)
placement-Suits (e ∷ nodes) instances =
    elim (Option-cases (try_single_node_placement (e ∷ nodes) instances)) [
      | inl s ↦
          rw (s, find_best_numa_placement)
            (greedy-Entries (Suits (e ∷ nodes) instances) (λ _. tt) (by_memory (e ∷ nodes))
              instances [] tt (All-by_memory _ (e ∷ nodes) (All-Suits (e ∷ nodes) instances)))
      | inr (id, s) ↦
          rw (s, find_best_numa_placement)
            (place_all-Entries (Suits (e ∷ nodes) instances) (some id) instances [] tt (
              single-Suits (e ∷ nodes) (e ∷ nodes) instances instances id
                (All-Suits (e ∷ nodes) instances) s))
    ]
