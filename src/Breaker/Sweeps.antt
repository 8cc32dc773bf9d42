-- ===== src/Breaker/Sweeps.antt =====
-- What the two ways of recovery do to the actions and to the state in force.
use photon_kernel_sil.Prelude.{
  ℕ, ◌+◌, String, Bool, true, false, ◌&&◌, List, [], ◌∷◌, none, some, ◌≡◌, refl, arith, ◌==◌,
  string_eq, any, count, keep, map, Option-cases, inl, inr, if◌then◌else◌,
}
use photon_kernel_sil.Breaker.Types.{Action, Breaker, closed, state_eq, BreakerState-discrete}
use photon_kernel_sil.Breaker.Recovery.{
  is_open, recover, recover_first, manual_recover, due, recover_due, sweep,
}

abbrev pub confirmed : Action → Bool
confirmed a = a.requires_manual_confirmation

-- an open action that waits for a person
abbrev pub held : Action → Bool
held a = is_open a && a.requires_manual_confirmation

due-recover_due : (now : ℕ) (a : Action) → due now (recover_due now a) ≡ false
unfolding recover_due BreakerState-discrete
due-recover_due now a = ground arith

none_due : (now : ℕ) (xs : List Action) → any (due now) (map (recover_due now) xs) ≡ false
none_due now [] = refl
none_due now (a ∷ xs) = ground (arith, due-recover_due now a, none_due now xs)

recover_due_idem : (now : ℕ) (a : Action) → recover_due now (recover_due now a) ≡ recover_due now a
unfolding recover_due BreakerState-discrete
recover_due_idem now a = ground arith

map-recover_due_idem :
    (now : ℕ) (xs : List Action)
    → map (recover_due now) (map (recover_due now) xs) ≡ map (recover_due now) xs
map-recover_due_idem now [] = refl
map-recover_due_idem now (a ∷ xs) = cc (recover_due_idem now a, map-recover_due_idem now xs)

-- A second sweep at the same time changes nothing.
pub sweep_idem : (now : ℕ) (b : Breaker) → sweep now (sweep now b) ≡ sweep now b
unfolding sweep
sweep_idem now b = ground (arith, none_due now b.actions, map-recover_due_idem now b.actions)

keep-confirmed :
    (now : ℕ) (xs : List Action) → keep confirmed (map (recover_due now) xs) ≡ keep confirmed xs
unfolding recover_due
keep-confirmed now [] = refl
keep-confirmed now (a ∷ xs) = ground (arith, keep-confirmed now xs)

-- A sweep changes no action that requires confirmation.
pub sweep-keeps-confirmed :
    (now : ℕ) (b : Breaker) → keep confirmed (sweep now b).actions ≡ keep confirmed b.actions
unfolding sweep
sweep-keeps-confirmed now b = ground (arith, keep-confirmed now b.actions)

count-due :
    (now : ℕ) (xs : List Action)
    → count is_open (map (recover_due now) xs) + count (due now) xs ≡ count is_open xs
unfolding recover_due BreakerState-discrete
count-due now [] = omega arith
count-due now (a ∷ xs) = ground (arith, count-due now xs)

-- A sweep closes just the actions that are due.
pub count-sweep :
    (now : ℕ) (b : Breaker)
    → count is_open (sweep now b).actions + count (due now) b.actions ≡ count is_open b.actions
unfolding sweep
count-sweep now b = ground (arith, count-due now b.actions)

any-held : (now : ℕ) (xs : List Action) → any held (map (recover_due now) xs) ≡ any held xs
unfolding recover_due BreakerState-discrete
any-held now [] = refl
any-held now (a ∷ xs) = ground (arith, any-held now xs)

-- Where an action is due, the sweep reports the breaker closed and at no level, although an action
-- that waits for a person may still be open.
pub sweep_clears_hold :
    (now : ℕ) (b : Breaker)
    → any (due now) b.actions ≡ true
    → any held b.actions ≡ true
    → ((sweep now b).current_state ≡ closed)
      × ((sweep now b).current_level ≡ none)
      × (any held (sweep now b).actions ≡ true)
unfolding sweep
sweep_clears_hold now b d h = ground (arith, any-held now b.actions)

-- an open action with the id
abbrev pub named : String → Action → Bool
named action_id a = a.action_id == action_id && is_open a

recover_first-some :
    (action_id operator : String) (now : ℕ) (xs : List Action) (ys : List Action)
    → recover_first action_id operator now xs ≡ some ys
    → (any (named action_id) xs ≡ true) × (count is_open ys + 1 ≡ count is_open xs)
unfolding recover_first recover is_open BreakerState-discrete
recover_first-some action_id operator now [] ys h = cc
recover_first-some action_id operator now (a ∷ xs) ys h =
    elim (Option-cases (recover_first action_id operator now xs)) [
      | inl e ↦ ground arith
      | inr (zs, e) ↦ ground (arith, recover_first-some action_id operator now xs zs e)
    ]

recover_first-none :
    (action_id operator : String) (now : ℕ) (xs : List Action)
    → recover_first action_id operator now xs ≡ none
    → any (named action_id) xs ≡ false
unfolding recover_first
recover_first-none action_id operator now [] h = refl
recover_first-none action_id operator now (a ∷ xs) h =
    ground (arith, recover_first-none action_id operator now xs)

-- A manual recovery succeeds exactly when an open action has the id. It then closes one open
-- action and reports the breaker closed at no level; otherwise as many actions stay open, and the
-- state and the level stay what they were.
pub manual_recover_exact :
    (now : ℕ) (b : Breaker) (action_id operator : String)
    → ((manual_recover now b action_id operator).1 ≡ any (named action_id) b.actions)
      × (count is_open (manual_recover now b action_id operator).0.actions
            + (if any (named action_id) b.actions then 1 else 0)
          ≡ count is_open b.actions)
      × ((manual_recover now b action_id operator).0.current_state
          ≡ (if any (named action_id) b.actions then closed else b.current_state))
      × ((manual_recover now b action_id operator).0.current_level
          ≡ (if any (named action_id) b.actions then none else b.current_level))
unfolding manual_recover
manual_recover_exact now b action_id operator =
    elim (Option-cases (recover_first action_id operator now b.actions)) [
      | inl e ↦ ground (arith, recover_first-none action_id operator now b.actions e)
      | inr (zs, e) ↦ ground (arith, recover_first-some action_id operator now b.actions zs e)
    ]
