-- ===== src/Gang/Placement.antt =====
-- The placement of the instances of a gang.
use photon_kernel_sil.Prelude.{
  ℕ, String, Bool, true, not, ◌&&◌, List, [], ◌∷◌, Option, none, some, ◌≡◌, inl, inr, arith, leb,
  ◌==◌, nat_eq, string_eq, any, All, All-mono, keep, Bool-cases,
}
use photon_kernel_sil.Prelude.Dict.{Entries, Entries-put}
use photon_kernel_sil.Gang.Types.{NumaTopology, SandboxInstance, Nodes}
use photon_kernel_sil.Gang.Topology.{
  node_has_capacity, place_all, Placement, insert_node, by_memory, greedy,
}
use photon_kernel_sil.Gang.Nodes.{has_room}

-- Some instance has this id, and some node with the other id has capacity for it.
abbrev pub matched : Nodes → List SandboxInstance → String → ℕ → Bool
matched nodes instances name id =
    any (λ i. (i.instance_id == name) && has_room nodes id i) instances

abbrev pub Suits : Nodes → List SandboxInstance → String → Option ℕ → Type 0
Suits nodes instances name none = Unit
Suits nodes instances name (some id) = matched nodes instances name id ≡ true

module _ {ℓ} {A : Type ℓ} where
  pub members : (xs : List A) → All (λ x. (p : A → Bool) → p x ≡ true → any p xs ≡ true) xs
  members [] = tt
  members (x ∷ xs) =
      (λ p h. ground arith, All-mono _ _ (λ y f p h. ground (arith, f p h)) xs (members xs))

  pub All-keep {κ} : (P : A → Type κ) (p : A → Bool) (xs : List A) → All P xs → All P (keep p xs)
  All-keep P p [] h = tt
  All-keep P p (x ∷ xs) h = elim (Bool-cases (p x)) [
    | inl e ↦ rw e (h.0, All-keep P p xs h.1)
    | inr e ↦ rw e (All-keep P p xs h.1)
  ]

  pub kept : (p : A → Bool) (xs : List A) → All (λ x. p x ≡ true) (keep p xs)
  kept p [] = tt
  kept p (x ∷ xs) = elim (Bool-cases (p x)) [
    | inl e ↦ rw e (e, kept p xs)
    | inr e ↦ rw e (kept p xs)
  ]

pub All-by_memory {ℓ} :
    (P : ℕ × NumaTopology → Type ℓ) (nodes : Nodes) → All P nodes → All P (by_memory nodes)
unfolding by_memory insert_node
All-by_memory P [] h = tt
All-by_memory P (n ∷ nodes) h = insert (by_memory nodes) (All-by_memory P nodes h.1)
  where
    insert : (ms : Nodes) → All P ms → All P (insert_node n ms)
    insert [] k = (h.0, tt)
    insert (m ∷ ms) k = elim (Bool-cases (leb m.1.available_memory_mb n.1.available_memory_mb)) [
      | inl e ↦ rw e (h.0, k)
      | inr e ↦ rw e (k.0, insert ms k.1)
    ]

-- A relation of ids and nodes that holds wherever a node has capacity holds of the placement.
module _ (P : String → Option ℕ → Type 0) where
  pub place_all-Entries :
      (target : Option ℕ) (instances : List SandboxInstance) (placement : Placement)
      → Entries P placement
      → All (λ i. P i.instance_id target) instances
      → Entries P (place_all target instances placement)
  unfolding place_all
  place_all-Entries target [] placement h k = h
  place_all-Entries target (i ∷ rest) placement h k =
      place_all-Entries target rest _ (Entries-put P placement i.instance_id target h k.0) k.1

  module _ (unplaced : (name : String) → P name none) where
    pub greedy-Entries :
        (nodes : Nodes) (remaining : List SandboxInstance) (placement : Placement)
        → Entries P placement
        → All
            (λ e. All (λ i. node_has_capacity e.1 i ≡ true → P i.instance_id (some e.0)) remaining)
            nodes
        → Entries P (greedy nodes remaining placement)
    unfolding greedy
    greedy-Entries [] remaining placement h k =
        place_all-Entries none remaining placement h (all_unplaced remaining)
      where
        all_unplaced : (is : List SandboxInstance) → All (λ i. P i.instance_id none) is
        all_unplaced [] = tt
        all_unplaced (i ∷ is) = (unplaced i.instance_id, all_unplaced is)
    greedy-Entries ((id, node) ∷ nodes) [] placement h k = h
    greedy-Entries ((id, node) ∷ nodes) (i ∷ rest) placement h k =
        greedy-Entries nodes (keep (λ inst. not (node_has_capacity node inst)) (i ∷ rest)) _
          (place_all-Entries (some id) (keep (node_has_capacity node) (i ∷ rest)) placement h
            (fitting (i ∷ rest) k.0))
          (All-mono _ _ (λ e. All-keep _ (λ inst. not (node_has_capacity node inst)) (i ∷ rest))
            nodes k.1)
      where
        fitting :
            (is : List SandboxInstance)
            → All (λ i. node_has_capacity node i ≡ true → P i.instance_id (some id)) is
            → All (λ i. P i.instance_id (some id)) (keep (node_has_capacity node) is)
        fitting [] h = tt
        fitting (i ∷ is) h = elim (Bool-cases (node_has_capacity node i)) [
          | inl e ↦ rw e (h.0 e, fitting is h.1)
          | inr e ↦ rw e (fitting is h.1)
        ]
