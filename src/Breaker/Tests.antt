-- ===== src/Breaker/Tests.antt =====
-- Runs of the circuit breaker, and each theorem at an input that meets its hypotheses.
use photon_kernel_sil.Prelude.{
  if◌then◌else◌, ℕ, ◌+◌, ◌*◌, String, true, false, List, [], ◌∷◌, ◌++◌, Option, none, some, ◌≡◌,
  refl, All, any, count,
}
use photon_kernel_sil.Prelude.Dict.{get_or, get, put}
use photon_kernel_sil.Breaker.Types.{
  l1_instance, l3_cluster, closed, opened, high_risk_syscall, SecurityEvent, Action, TriggerRule,
  Breaker, Clock, second, remember, TriggerType-discrete, BreakerState-discrete, level_eq,
  trigger_eq,
}
use photon_kernel_sil.Breaker.Rules.{default_rules, first_firing, in_window, triggered}
use photon_kernel_sil.Breaker.Engine.{init, execute, report_event}
use photon_kernel_sil.Breaker.Recovery.{is_open, manual_recover, due, sweep}
use photon_kernel_sil.Breaker.Runs.{Operation, reports, triggers, recovery_rounds, run}
use photon_kernel_sil.Breaker.Sweeps.{held, named, sweep_clears_hold, manual_recover_exact}
use photon_kernel_sil.Breaker.Firing.{
  Among, Fires, Silent, heard, report_event_sound, report_event_complete,
}
use photon_kernel_sil.Breaker.Invariant.{IsSound, run-IsSound}

abbrev digest : String → ℕ → String
digest event_id now = event_id

abbrev lower : String → String
lower s = s

-- A call at one instant: each reading of the clock gives the same time.
abbrev at : ℕ → Clock
at now _ = now

abbrev ptrace : SecurityEvent
ptrace = record {
  event_id = "evt_001";
  timestamp = 1000 * second;
  trigger_type = high_risk_syscall;
  severity = "critical";
  instance_id = some "inst-001";
  node_id = none;
  description = "ptrace";
  metadata = [];
  source = "auto";
}

abbrev fresh : Breaker
unfolding init default_rules
fresh = init "test-node-01" true true true

abbrev reported : Breaker × Option Action
unfolding report_event remember first_firing in_window triggered execute TriggerType-discrete get_or
    put get init
reported = report_event digest (at (1000 * second)) fresh ptrace

abbrev ptrace_action : Action
ptrace_action = record {
  action_id = "evt_001";
  timestamp = 1000 * second;
  level = l1_instance;
  state = opened;
  trigger_event_id = "evt_001";
  description = "进程尝试 ptrace/mount/init_module 等高危系统调用";
  affected_instances = "inst-001" ∷ [];
  affected_nodes = "test-node-01" ∷ [];
  auto_recover_at = some (1300 * second);
  requires_manual_confirmation = false;
  recovered_at = none;
  recovered_by = none;
}

high_risk_syscall_fires :
    (report_event digest (at (1000 * second)) fresh ptrace).1 ≡ some ptrace_action
unfolding report_event remember first_firing in_window triggered execute TriggerType-discrete get_or
    put get init
high_risk_syscall_fires = refl

report_event_sound_example :
    (r : TriggerRule) × Among r fresh.rules
    × Fires (at (1000 * second)) (heard fresh ptrace) ptrace r
    × (ptrace_action.level ≡ r.level)
    × (ptrace_action.trigger_event_id ≡ ptrace.event_id)
    × (ptrace_action.state ≡ opened)
    × ((report_event digest (at (1000 * second)) fresh ptrace).0.current_level
        ≡ some ptrace_action.level)
    × ((report_event digest (at (1000 * second)) fresh ptrace).0.current_state ≡ opened)
    × ((report_event digest (at (1000 * second)) fresh ptrace).0.actions
        ≡ fresh.actions ++ ptrace_action ∷ [])
report_event_sound_example =
    report_event_sound digest (at (1000 * second)) fresh ptrace ptrace_action
      high_risk_syscall_fires

-- Within the first minute of the epoch every rule is in its cooldown.
early_event_is_quiet : (report_event digest (at 5) fresh ptrace).1 ≡ none
unfolding report_event remember first_firing in_window triggered execute TriggerType-discrete get_or
    put get init
early_event_is_quiet = refl

report_event_complete_example :
    All (Silent (at 5) (heard fresh ptrace) ptrace) fresh.rules
    × ((report_event digest (at 5) fresh ptrace).0 ≡ heard fresh ptrace)
report_event_complete_example =
    report_event_complete digest (at 5) fresh ptrace early_event_is_quiet

-- An L3 action that waits for a person, and an L1 action that is due at 1300 seconds.
abbrev audit_action : Action
audit_action = record ptrace_action {
  action_id = "evt_000";
  level = l3_cluster;
  auto_recover_at = none;
  requires_manual_confirmation = true;
}

abbrev overlapping : Breaker
overlapping = record fresh {
  actions = audit_action ∷ ptrace_action ∷ [];
  current_state = opened;
  current_level = some l3_cluster;
}

lower_fires : (report_event digest (at (1000 * second)) overlapping ptrace).1 ≡ some ptrace_action
unfolding report_event remember first_firing in_window triggered execute TriggerType-discrete get_or
    put get init
lower_fires = refl

one_is_due : any (due (1300 * second)) overlapping.actions ≡ true
unfolding due BreakerState-discrete
one_is_due = refl

one_is_held : any held overlapping.actions ≡ true
unfolding is_open BreakerState-discrete
one_is_held = refl

sweep_clears_hold_example :
    ((sweep (1300 * second) overlapping).current_state ≡ closed)
    × ((sweep (1300 * second) overlapping).current_level ≡ none)
    × (any held (sweep (1300 * second) overlapping).actions ≡ true)
sweep_clears_hold_example = sweep_clears_hold (1300 * second) overlapping one_is_due one_is_held

manual_recover_exact_example :
    ((manual_recover 7 overlapping "evt_000" "admin").1 ≡ any (named "evt_000") overlapping.actions)
    × (count is_open (manual_recover 7 overlapping "evt_000" "admin").0.actions
          + (if any (named "evt_000") overlapping.actions then 1 else 0)
        ≡ count is_open overlapping.actions)
    × ((manual_recover 7 overlapping "evt_000" "admin").0.current_state
        ≡ (if any (named "evt_000") overlapping.actions then closed else overlapping.current_state))
    × ((manual_recover 7 overlapping "evt_000" "admin").0.current_level
        ≡ (if any (named "evt_000") overlapping.actions then none else overlapping.current_level))
manual_recover_exact_example = manual_recover_exact 7 overlapping "evt_000" "admin"

abbrev history : List Operation
history =
    reports (at (1000 * second)) ptrace
    ∷ triggers (at (1001 * second)) l3_cluster "audit" none
    ∷ recovery_rounds (1300 * second)
    ∷ []

run-IsSound_example : IsSound (run digest lower (init "test-node-01" true true true) history)
run-IsSound_example = run-IsSound digest lower "test-node-01" true true true history
