-- ===== src/Breaker/Invariant.antt =====
-- What holds of a breaker after any history.
use photon_kernel_sil.Prelude.{
  ℕ, ◌≤◌, ◌-◌, String, Bool, true, false, List, [], ◌∷◌, ◌++◌, Option, none, some, ◌≡◌, ◌⊎◌, inl,
  inr, refl, subst, arith, not, ◌&&◌, ◌==◌, string_eq, any, length, All, All-append, Bool-cases,
  Option-cases, length-drop, map,
}
use photon_kernel_sil.Breaker.Types.{
  closed, opened, SecurityEvent, Action, TriggerRule, Breaker, Clock, later, remember, max_events,
  BreakerState-discrete, state_eq,
}
use photon_kernel_sil.Breaker.Rules.{update_rule}
use photon_kernel_sil.Breaker.Engine.{
  init, execute, new_action, fire, needs_confirmation, report_event, trigger_manually,
}
use photon_kernel_sil.Breaker.Recovery.{
  is_open, recover, recover_first, manual_recover, due, recover_due, sweep, recovery_round,
  shutdown,
}
use photon_kernel_sil.Breaker.Queries.{add_c2_indicator}
use photon_kernel_sil.Breaker.Runs.{
  Operation, reports, triggers, recovers, recovery_rounds, updates, indicates, shuts_down, step,
  run,
}

abbrev is_some {ℓ} : {A : Type ℓ} → Option A → Bool
is_some none = false
is_some (some a) = true

-- An action waits for a person exactly when its level is L3 or L4, and then it has no time of
-- recovery. It is open and unrecovered, or closed with the time and the name of its recovery.
pub record IsSoundAction (a : Action) : Type 0 where
  pub by_level : a.requires_manual_confirmation ≡ needs_confirmation a.level
  pub timed : is_some a.auto_recover_at ≡ not a.requires_manual_confirmation
  pub states :
      ((a.state ≡ opened) × (a.recovered_by ≡ none) × (a.recovered_at ≡ none))
      ⊎ ((a.state ≡ closed) × (is_some a.recovered_by ≡ true) × (is_some a.recovered_at ≡ true))

-- The breaker is closed at no level, or open at some level with an open action.
pub record IsSound (b : Breaker) : Type 0 where
  pub bounded : length b.events ≤ max_events
  pub actions : All IsSoundAction b.actions
  pub in_force :
      ((b.current_state ≡ closed) × (b.current_level ≡ none))
      ⊎ ((b.current_state ≡ opened)
          × (is_some b.current_level ≡ true)
          × (any is_open b.actions ≡ true))

length-remember :
    (es : List SecurityEvent) (e : SecurityEvent)
    → length es ≤ max_events
    → length (remember es e) ≤ max_events
unfolding remember
length-remember es e h =
    omega (arith, length-drop (length (es ++ e ∷ []) - max_events) (es ++ e ∷ []))

init-IsSound : (node : String) (x y z : Bool) → IsSound (init node x y z)
unfolding init
init-IsSound node x y z = record {
  bounded = omega arith;
  actions = tt;
  in_force = inl (refl, refl);
}

any-append : (xs : List Action) (a : Action) → is_open a ≡ true → any is_open (xs ++ a ∷ []) ≡ true
any-append [] a h = ground arith
any-append (x ∷ xs) a h = ground (arith, any-append xs a h)

module _ (digest : String → ℕ → String) where
  new_action-IsSoundAction :
      (clock : Clock) (b : Breaker) (e : SecurityEvent) (r : TriggerRule)
      → IsSoundAction (new_action digest clock b e r)
  unfolding new_action
  new_action-IsSoundAction clock b e r = ground arith

  execute-IsSound :
      (clock : Clock) (b : Breaker) (e : SecurityEvent) (r : TriggerRule)
      → IsSound b
      → IsSound (execute digest clock b e r).0
  unfolding execute is_open BreakerState-discrete
  execute-IsSound clock b e r s = record {
    bounded = s.bounded;
    actions =
        All-append IsSoundAction b.actions _ s.actions (new_action-IsSoundAction clock b e r, tt);
    in_force = inr (refl, refl, any-append b.actions _ refl);
  }

  fire-IsSound :
      (b : Breaker) (e : SecurityEvent) (o : Option (TriggerRule × Clock))
      → IsSound b
      → IsSound (fire digest b e o).0
  fire-IsSound b e none s = s
  fire-IsSound b e (some (r, clock)) s =
      execute-IsSound (later 1 clock) _ e r
        (record { bounded = s.bounded; actions = s.actions; in_force = s.in_force })

  report_event-IsSound :
      (clock : Clock) (b : Breaker) (e : SecurityEvent)
      → IsSound b
      → IsSound (report_event digest clock b e).0
  unfolding report_event
  report_event-IsSound clock b e s =
      fire-IsSound (record b { events = remember b.events e }) e _
        (record {
          bounded = length-remember b.events e s.bounded;
          actions = s.actions;
          in_force = s.in_force;
        })

recover-IsSoundAction :
    (now : ℕ) (who : String) (a : Action) → IsSoundAction a → IsSoundAction (recover now who a)
unfolding recover
recover-IsSoundAction now who a s = record {
  by_level = s.by_level;
  timed = s.timed;
  states = inr (refl, refl, refl);
}

recover_first-All :
    (action_id who : String) (now : ℕ) (xs ys : List Action)
    → All IsSoundAction xs
    → recover_first action_id who now xs ≡ some ys
    → All IsSoundAction ys
unfolding recover_first
recover_first-All action_id who now [] ys s h = cc
recover_first-All action_id who now (a ∷ xs) ys s h =
    elim (Bool-cases (a.action_id == action_id && is_open a)) [
      | inl here ↦
          let e : recover now who a ∷ xs ≡ ys = ground arith in
          subst (All IsSoundAction) e (recover-IsSoundAction now who a s.0, s.1)
      | inr not_here ↦ elim (Option-cases (recover_first action_id who now xs)) [
        | inl e ↦ ground arith
        | inr (zs, e) ↦
            let p : a ∷ zs ≡ ys = ground arith in
            subst (All IsSoundAction) p (s.0, recover_first-All action_id who now xs zs s.1 e)
      ]
    ]

manual_recover-IsSound :
    (now : ℕ) (b : Breaker) (action_id who : String)
    → IsSound b
    → IsSound (manual_recover now b action_id who).0
unfolding manual_recover
manual_recover-IsSound now b action_id who s =
    elim (Option-cases (recover_first action_id who now b.actions)) [
      | inl e ↦ rw (e, manual_recover) s
      | inr (ys, e) ↦
          rw (e, manual_recover)
            (record {
              bounded = s.bounded;
              actions = recover_first-All action_id who now b.actions ys s.actions e;
              in_force = inl (refl, refl);
            })
    ]

recover_due-All :
    (now : ℕ) (xs : List Action)
    → All IsSoundAction xs
    → All IsSoundAction (map (recover_due now) xs)
unfolding recover_due
recover_due-All now [] s = tt
recover_due-All now (a ∷ xs) s = elim (Bool-cases (due now a)) [
  | inl d ↦ rw d (recover-IsSoundAction now "auto_recovery" a s.0, recover_due-All now xs s.1)
  | inr d ↦ rw d (s.0, recover_due-All now xs s.1)
]

any_open-quiet :
    (now : ℕ) (xs : List Action)
    → any (due now) xs ≡ false
    → any is_open (map (recover_due now) xs) ≡ any is_open xs
unfolding recover_due
any_open-quiet now [] h = refl
any_open-quiet now (a ∷ xs) h = ground (arith, any_open-quiet now xs)

sweep-IsSound : (now : ℕ) (b : Breaker) → IsSound b → IsSound (sweep now b)
unfolding sweep
sweep-IsSound now b s = elim (Bool-cases (any (due now) b.actions)) [
  | inl d ↦ rw d (record {
    bounded = s.bounded;
    actions = recover_due-All now b.actions s.actions;
    in_force = inl (refl, refl);
  })
  | inr d ↦ rw d (record {
    bounded = s.bounded;
    actions = recover_due-All now b.actions s.actions;
    in_force = rw (any_open-quiet now b.actions d) s.in_force;
  })
]

recovery_round-IsSound : (now : ℕ) (b : Breaker) → IsSound b → IsSound (recovery_round now b)
unfolding recovery_round
recovery_round-IsSound now b s = elim (Bool-cases (b.running && b.auto_recover_enabled)) [
  | inl e ↦ rw e (sweep-IsSound now b s)
  | inr e ↦ rw e s
]

module _ (digest : String → ℕ → String) (lower : String → String) where
  -- Every method keeps the breaker sound.
  step-IsSound : (b : Breaker) (o : Operation) → IsSound b → IsSound (step digest lower b o)
  unfolding step trigger_manually update_rule add_c2_indicator shutdown
  step-IsSound b (reports clock event) s = report_event-IsSound digest clock b event s
  step-IsSound b (triggers clock level reason instance_id) s =
      execute-IsSound digest (later 2 clock) b _ _ s
  step-IsSound b (recovers now action_id who) s = manual_recover-IsSound now b action_id who s
  step-IsSound b (recovery_rounds now) s = recovery_round-IsSound now b s
  step-IsSound b (updates trigger u) s = record {
    bounded = s.bounded;
    actions = s.actions;
    in_force = s.in_force;
  }
  step-IsSound b (indicates indicator) s =
      elim (Bool-cases (any (λ i. i == lower indicator) b.c2_indicators)) [
        | inl e ↦ rw e s
        | inr e ↦ rw e (record { bounded = s.bounded; actions = s.actions; in_force = s.in_force })
      ]
  step-IsSound b shuts_down s = record {
    bounded = s.bounded;
    actions = s.actions;
    in_force = s.in_force;
  }

  run_from-IsSound :
      (b : Breaker) (os : List Operation) → IsSound b → IsSound (run digest lower b os)
  unfolding run
  run_from-IsSound b [] s = s
  run_from-IsSound b (o ∷ os) s = run_from-IsSound (step digest lower b o) os (step-IsSound b o s)

  -- After any history from a new breaker: at most 10000 events are held; every action waits for a
  -- person exactly when its level is L3 or L4, has a time of recovery exactly when it does not,
  -- and is open or closed with the time and the name of its recovery; and the breaker is closed at
  -- no level, or open at some level with an open action.
  pub run-IsSound :
      (node : String) (x y z : Bool) (os : List Operation)
      → IsSound (run digest lower (init node x y z) os)
  run-IsSound node x y z os = run_from-IsSound (init node x y z) os (init-IsSound node x y z)
