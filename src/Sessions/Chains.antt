-- ===== src/Sessions/Chains.antt =====
-- evolution/session_state_manager.py: the loop of `get_session_chain` ends.
use photon_kernel_sil.Prelude.{
  ℕ, zero, suc, ◌≤◌, ◌<◌, String, Bool, true, false, not, ◌||◌, List, [], ◌∷◌, Option, none, some,
  ◌≡◌, inl, inr, refl, ap, arith, ◌==◌, string_eq, ==_iff, any, count, length, Bool-cases,
  Option-cases,
}
use photon_kernel_sil.Prelude.Dict.{Dict, get, keys}
use photon_kernel_sil.Prelude.Text.{truthy}
use photon_kernel_sil.Sessions.Types.{SessionState, SessionStateManager}
use photon_kernel_sil.Sessions.Queries.{chain_from, get_session_chain}

-- The sessions that the loop has not come to
abbrev unvisited : List String → List String → ℕ
unvisited visited ids = count (λ k. not (any (λ v. v == k) visited)) ids

unvisited-le :
    (visited : List String) (id : String) (ids : List String)
    → unvisited (id ∷ visited) ids ≤ unvisited visited ids
unvisited-le visited id [] = omega arith
unvisited-le visited id (k ∷ ids) = ground (arith, unvisited-le visited id ids)

unvisited-visit :
    (visited : List String) (id : String) (sessions : Dict String SessionState) (s : SessionState)
    → get sessions id ≡ some s
    → any (λ v. v == id) visited ≡ false
    → unvisited (id ∷ visited) (keys sessions) < unvisited visited (keys sessions)
unfolding get
unvisited-visit visited id [] s found fresh = cc
unvisited-visit visited id ((k, t) ∷ sessions) s found fresh = elim (Bool-cases (k == id)) [
  | inl e ↦
      let same_id = (==_iff k id).0 e in
      ground (
        arith,
        ap (λ j. any (λ v. v == j) visited) same_id,
        ==_iff id k,
        ==_iff id id,
        unvisited-le visited id (keys sessions),
      )
  | inr e ↦ ground (
    arith,
    unvisited-visit visited id sessions s (ground arith) fresh,
    unvisited-le visited id (k ∷ []),
  )
]

unvisited-all : (visited ids : List String) → unvisited visited ids ≤ length ids
unvisited-all visited [] = omega arith
unvisited-all visited (k ∷ ids) = ground (arith, unvisited-all visited ids)

length-keys : (d : Dict String SessionState) → length (keys d) ≡ length d
length-keys [] = refl
length-keys ((k, v) ∷ d) = ap suc (length-keys d)

abbrev pub is_some {ℓ} : {A : Type ℓ} → Option A → Bool
is_some none = false
is_some (some a) = true

chain_from-ends :
    (fuel : ℕ) (sessions : Dict String SessionState) (visited : List String) (id : String)
    → unvisited visited (keys sessions) < fuel
    → is_some (chain_from fuel sessions visited id) ≡ true
unfolding chain_from
chain_from-ends zero sessions visited id h = absurd (omega arith)
chain_from-ends (suc fuel) sessions visited id h =
    elim (Bool-cases (not (truthy id) || any (λ v. v == id) visited)) [
      | inl e ↦ rw e refl
      | inr e ↦ elim (Option-cases (get sessions id)) [
        | inl f ↦ rw (e, f) refl
        | inr (s, f) ↦ elim (Option-cases s.parent_session_id) [
          | inl g ↦ rw (e, f, g) refl
          | inr (parent, g) ↦
              let fewer = unvisited-visit visited id sessions s f (ground arith) in
              let rest = chain_from-ends fuel sessions (id ∷ visited) parent (omega arith) in
              rw (e, f, g) (ground (arith, rest))
        ]
      ]
    ]

-- The chain of every session ends within one more round than there are sessions, also where the
-- parents go round in a circle.
pub get_session_chain_ends :
    (m : SessionStateManager) (id : String)
    → is_some (get_session_chain (suc (length m.sessions)) m id) ≡ true
unfolding get_session_chain
get_session_chain_ends m id =
    let ends =
      chain_from-ends (suc (length m.sessions)) m.sessions [] id
        (omega (arith, unvisited-all [] (keys m.sessions), length-keys m.sessions)) in
    ground (arith, ends)
