-- ===== src/Gang/Nodes.antt =====
-- The node that one instance gets.
use photon_kernel_sil.Prelude.{
  ℕ, ◌≤◌, ◌≢◌, Bool, true, false, ◌&&◌, [], ◌∷◌, none, some, ◌≡◌, ◌⊎◌, ◌↔◌, inl, inr, refl, arith,
  ltb, ◌==◌, nat_eq, any, Option-cases, Bool-cases,
}
use photon_kernel_sil.Prelude.Dict.{get}
use photon_kernel_sil.Gang.Types.{NumaTopology, SandboxInstance, Nodes}
use photon_kernel_sil.Gang.Topology.{
  node_has_capacity, check_preferred_node, score, best_from, find_best_node_by_score,
  find_best_numa_node,
}

-- Some node with this id has capacity for the instance.
abbrev pub has_room : Nodes → ℕ → SandboxInstance → Bool
has_room nodes id inst = any (λ e. (e.0 == id) && node_has_capacity e.1 inst) nodes

-- Some node with this id and this score has capacity for the instance.
abbrev pub has_room_at : Nodes → ℕ → ℕ → SandboxInstance → Bool
has_room_at nodes id s inst =
    any (λ e. (e.0 == id) && (node_has_capacity e.1 inst && (score e.1 == s))) nodes

-- Some node that scores more has capacity for the instance.
abbrev pub beaten : Nodes → ℕ → SandboxInstance → Bool
beaten nodes s inst = any (λ e. node_has_capacity e.1 inst && ltb s (score e.1)) nodes

get-has_room :
    (nodes : Nodes) (inst : SandboxInstance) (id : ℕ) (node : NumaTopology)
    → get nodes id ≡ some node
    → node_has_capacity node inst ≡ true
    → has_room nodes id inst ≡ true
unfolding get
get-has_room [] inst id node g h = cc
get-has_room ((j, m) ∷ nodes) inst id node g h = ground (arith, get-has_room nodes inst id node)

preferred-has_room :
    (nodes : Nodes) (inst : SandboxInstance) (id : ℕ)
    → check_preferred_node nodes inst ≡ some id
    → (inst.preferred_numa_node ≡ some id) × (has_room nodes id inst ≡ true)
unfolding check_preferred_node
preferred-has_room nodes inst id h = elim (Option-cases inst.preferred_numa_node) [
  | inl e ↦ ground arith
  | inr (p, e) ↦ elim (Option-cases (get nodes p)) [
    | inl g ↦ ground arith
    | inr (node, g) ↦ ground (arith, get-has_room nodes inst p node g)
  ]
]

best_from-source :
    (inst : SandboxInstance) (n s id t : ℕ) (nodes : Nodes)
    → best_from inst (some (n, s)) nodes ≡ some (id, t)
    → ((n ≡ id) × (s ≡ t)) ⊎ (has_room_at nodes id t inst ≡ true)
unfolding best_from
best_from-source inst n s id t [] h = ground arith
best_from-source inst n s id t ((j, m) ∷ nodes) h =
    elim (Bool-cases (node_has_capacity m inst && ltb s (score m))) [
      | inl e ↦ ground (arith, best_from-source inst j (score m) id t nodes)
      | inr e ↦ ground (arith, best_from-source inst n s id t nodes)
    ]

best_from-max :
    (inst : SandboxInstance) (n s id t : ℕ) (nodes : Nodes)
    → best_from inst (some (n, s)) nodes ≡ some (id, t)
    → (s ≤ t) × (beaten nodes t inst ≡ false)
unfolding best_from
best_from-max inst n s id t [] h = ground arith
best_from-max inst n s id t ((j, m) ∷ nodes) h =
    elim (Bool-cases (node_has_capacity m inst && ltb s (score m))) [
      | inl e ↦ ground (arith, best_from-max inst j (score m) id t nodes)
      | inr e ↦ ground (arith, best_from-max inst n s id t nodes)
    ]

best_from-some :
    (inst : SandboxInstance) (n s : ℕ) (nodes : Nodes) → best_from inst (some (n, s)) nodes ≢ none
unfolding best_from
best_from-some inst n s [] h = cc
best_from-some inst n s ((j, m) ∷ nodes) h =
    elim (Bool-cases (node_has_capacity m inst && ltb s (score m))) [
      | inl e ↦ ground (arith, best_from-some inst j (score m) nodes)
      | inr e ↦ ground (arith, best_from-some inst n s nodes)
    ]

best_from-none :
    (inst : SandboxInstance) (nodes : Nodes)
    → (best_from inst none nodes ≡ none) ↔ (any (λ e. node_has_capacity e.1 inst) nodes ≡ false)
unfolding best_from
best_from-none inst [] = (λ _. refl, λ _. refl)
best_from-none inst ((j, m) ∷ nodes) = elim (Bool-cases (node_has_capacity m inst)) [
  | inl e ↦ rw e (λ h. absurd (best_from-some inst j (score m) nodes h), λ h. cc)
  | inr e ↦ rw e (best_from-none inst nodes)
]

best_from-best :
    (inst : SandboxInstance) (id t : ℕ) (nodes : Nodes)
    → best_from inst none nodes ≡ some (id, t)
    → (has_room_at nodes id t inst ≡ true) × (beaten nodes t inst ≡ false)
unfolding best_from
best_from-best inst id t [] h = cc
best_from-best inst id t ((j, m) ∷ nodes) h = elim (Bool-cases (node_has_capacity m inst)) [
  | inl e ↦ ground (
    arith,
    best_from-source inst j (score m) id t nodes,
    best_from-max inst j (score m) id t nodes,
  )
  | inr e ↦ ground (arith, best_from-best inst id t nodes)
]

-- The node that an instance gets has capacity for it. It is the one the instance prefers, or no
-- node with capacity scores more.
pub find_best_numa_node_lem :
    (nodes : Nodes) (inst : SandboxInstance) (id : ℕ)
    → find_best_numa_node nodes inst ≡ some id
    → ((inst.preferred_numa_node ≡ some id) × (has_room nodes id inst ≡ true))
      ⊎ ((t : ℕ) × (has_room_at nodes id t inst ≡ true) × (beaten nodes t inst ≡ false))
unfolding find_best_numa_node find_best_node_by_score
find_best_numa_node_lem [] inst id h = cc
find_best_numa_node_lem (e ∷ nodes) inst id h =
    elim (Option-cases (check_preferred_node (e ∷ nodes) inst)) [
      | inr (p, c) ↦ inl (preferred-has_room (e ∷ nodes) inst id (ground arith))
      | inl c ↦ elim (Option-cases (best_from inst none (e ∷ nodes))) [
        | inl b ↦ ground arith
        | inr ((i, t), b) ↦
            let (room, unbeaten) = best_from-best inst id t (e ∷ nodes) (ground arith) in
            inr (t, room, unbeaten)
      ]
    ]

has_room-any :
    (nodes : Nodes) (inst : SandboxInstance) (id : ℕ)
    → has_room nodes id inst ≡ true
    → any (λ e. node_has_capacity e.1 inst) nodes ≡ true
has_room-any [] inst id h = cc
has_room-any (e ∷ nodes) inst id h = ground (arith, has_room-any nodes inst id)

-- An instance gets no node exactly when no node has capacity for it.
pub find_best_numa_node-none :
    (nodes : Nodes) (inst : SandboxInstance)
    → (find_best_numa_node nodes inst ≡ none)
      ↔ (any (λ e. node_has_capacity e.1 inst) nodes ≡ false)
unfolding find_best_numa_node find_best_node_by_score
find_best_numa_node-none [] inst = (λ _. refl, λ _. refl)
find_best_numa_node-none (e ∷ nodes) inst =
    elim (Option-cases (check_preferred_node (e ∷ nodes) inst)) [
      | inr (p, c) ↦
          let room = has_room-any (e ∷ nodes) inst p (preferred-has_room (e ∷ nodes) inst p c).1 in
          (λ h. ground arith, λ h. ground arith)
      | inl c ↦ elim (Option-cases (best_from inst none (e ∷ nodes))) [
        | inl b ↦ (λ h. (best_from-none inst (e ∷ nodes)).0 b, λ h. ground arith)
        | inr ((i, t), b) ↦
            (λ h. ground arith, λ h. ground (arith, (best_from-none inst (e ∷ nodes)).1 h))
      ]
    ]
