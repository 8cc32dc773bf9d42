-- ===== src/Breaker/Recovery.antt =====
-- evolution/security_circuit_breaker.py: manual recovery, and the sweep of the recovery thread.
use photon_kernel_sil.Prelude.{
  ℕ, String, Bool, true, false, not, ◌&&◌, List, [], ◌∷◌, Option, none, some, leb, ◌==◌, nat_eq,
  string_eq, if◌then◌else◌, any, map,
}
use photon_kernel_sil.Breaker.Types.{Action, Breaker, closed, opened, state_eq}

unfoldable pub is_open : Action → Bool
is_open a = a.state == opened

unfoldable pub recover : ℕ → String → Action → Action
recover now who a = record a { state = closed; recovered_at = some now; recovered_by = some who }

-- The first open action with the id is closed; `none` where there is none.
unfoldable pub recover_first : String → String → ℕ → List Action → Option (List Action)
recover_first action_id operator now [] = none
recover_first action_id operator now (a ∷ actions) = elim (a.action_id == action_id && is_open a) [
  | true ↦ some (recover now operator a ∷ actions)
  | false ↦ elim (recover_first action_id operator now actions) [
    | none ↦ none
    | some rest ↦ some (a ∷ rest)
  ]
]

unfoldable pub manual_recover : ℕ → Breaker → String → String → Breaker × Bool
unfolding recover_first is_open recover
manual_recover now b action_id operator = elim (recover_first action_id operator now b.actions) [
  | none ↦ (b, false)
  | some actions ↦
      (record b { actions = actions; current_state = closed; current_level = none }, true)
]

-- `action.auto_recover_at and now >= action.auto_recover_at`: the time 0 counts as no time.
abbrev pub time_reached : Option ℕ → ℕ → Bool
time_reached none now = false
time_reached (some t) now = not (t == 0) && leb t now

unfoldable pub due : ℕ → Action → Bool
unfolding is_open
due now a = is_open a && time_reached a.auto_recover_at now && not a.requires_manual_confirmation

unfoldable pub recover_due : ℕ → Action → Action
unfolding due recover
recover_due now a = if due now a then recover now "auto_recovery" a else a

unfoldable pub sweep : ℕ → Breaker → Breaker
unfolding recover_due
sweep now b =
    if any (due now) b.actions
    then record b {
      actions = map (recover_due now) b.actions;
      current_state = closed;
      current_level = none;
    }
    else record b { actions = map (recover_due now) b.actions }

-- One round of `_recovery_loop` after its sleep.
unfoldable pub recovery_round : ℕ → Breaker → Breaker
unfolding sweep
recovery_round now b = if b.running && b.auto_recover_enabled then sweep now b else b

unfoldable pub shutdown : Breaker → Breaker
shutdown b = record b { running = false }
