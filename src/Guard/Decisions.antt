-- ===== src/Guard/Decisions.antt =====
-- The settlement of an approval.
use photon_kernel_sil.Prelude.{
  ℕ, ◌+◌, String, Bool, false, ◌&&◌, List, [], ◌∷◌, some, ◌≡◌, inl, inr, refl, arith, ◌==◌,
  string_eq, any, count, Bool-cases, Option-cases, if◌then◌else◌,
}
use photon_kernel_sil.Guard.Types.{
  PolicyGuard, Approval, ApprovalStatus-discrete, pending, approval_eq,
}
use photon_kernel_sil.Guard.Approvals.{settle, settled, approve, reject}

-- The entry waits for a decision.
abbrev pub waits : Approval → Bool
waits a = a.status == pending

abbrev pub waits_as : String → Approval → Bool
waits_as id a = a.approval_id == id && waits a

abbrev pub one_if : Bool → ℕ
one_if b = if b then 1 else 0

settle-exact :
    (g : PolicyGuard) (id : String) (f : Approval → Approval) (queue : List Approval)
    → ((a : Approval) → waits (f a) ≡ false)
    → ((settled g (settle id f queue)).1 ≡ any (waits_as id) queue)
      × ((queue' : List Approval)
          → settle id f queue ≡ some queue'
          → count waits queue' + 1 ≡ count waits queue)
unfolding settle
settle-exact g id f [] decided = (refl, λ queue' e. cc)
settle-exact g id f (a ∷ queue) decided =
    let (ok, fewer) = settle-exact g id f queue decided in
    elim (Bool-cases (waits_as id a)) [
      | inl here ↦ (ground arith, λ queue' e. ground (arith, decided a))
      | inr there ↦ elim (Option-cases (settle id f queue)) [
        | inl e ↦ (ground arith, λ queue' q. ground arith)
        | inr (rest, e) ↦ (ground arith, λ queue' q. ground (arith, fewer rest e))
      ]
    ]

settled-exact :
    (g : PolicyGuard) (id : String) (f : Approval → Approval)
    → ((a : Approval) → waits (f a) ≡ false)
    → ((settled g (settle id f g.approval_queue)).1 ≡ any (waits_as id) g.approval_queue)
      × (count waits (settled g (settle id f g.approval_queue)).0.approval_queue
            + one_if (any (waits_as id) g.approval_queue)
          ≡ count waits g.approval_queue)
settled-exact g id f decided =
    let (ok, fewer) = settle-exact g id f g.approval_queue decided in
    elim (Option-cases (settle id f g.approval_queue)) [
      | inl e ↦ (ok, ground arith)
      | inr (queue, e) ↦ (ok, ground (arith, fewer queue e))
    ]

-- `approve` and `reject` succeed exactly where an entry with the id waits for a decision, and then
-- one entry less waits; otherwise as many wait as before.
pub decisions_exact :
    (now : ℕ) (g : PolicyGuard) (id who reason : String)
    → (((approve now g id who).1 ≡ any (waits_as id) g.approval_queue)
        × (count waits (approve now g id who).0.approval_queue
              + one_if (any (waits_as id) g.approval_queue)
            ≡ count waits g.approval_queue))
      × (((reject now g id who reason).1 ≡ any (waits_as id) g.approval_queue)
          × (count waits (reject now g id who reason).0.approval_queue
                + one_if (any (waits_as id) g.approval_queue)
              ≡ count waits g.approval_queue))
unfolding approve reject ApprovalStatus-discrete
decisions_exact now g id who reason =
    (settled-exact g id _ (λ a. refl), settled-exact g id _ (λ a. refl))
