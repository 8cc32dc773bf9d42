-- ===== src/Playbooks/Tests.antt =====
-- Runs of the playbook engine at concrete inputs.
use photon_kernel_sil.Prelude.{
  ℕ, ◌+◌, ◌≤◌, String, Bool, true, false, not, ◌&&◌, List, [], ◌∷◌, map, none, some, ◌≡◌, refl,
  ◌==◌, nat_eq, string_eq, any, count, take, length, if◌then◌else◌,
}
use photon_kernel_sil.Prelude.Dict.{get, get_or, put}
use photon_kernel_sil.Prelude.Sorting.{sort_by, insert_by}
use photon_kernel_sil.Prelude.Text.{braced}
use photon_kernel_sil.Playbooks.Types.{
  TriggerType-discrete, ActionType-discrete, PlaybookStatus-discrete, playbook_status_eq,
  escape_attempt, isolate_container, snapshot_evidence, waiting_approval, completed, Trigger,
  Playbook, Event, PlaybookExecution, World, PlaybookEngine,
}
use photon_kernel_sil.Playbooks.Matching.{
  match_trigger, match_conditions, metric_matches, triggered_by,
}
use photon_kernel_sil.Playbooks.Handlers.{new_engine}
use photon_kernel_sil.Playbooks.Execution.{
  audit, begin, conclude, plain_action, execute_action, resolve_params, run_actions,
  execute_playbook,
}
use photon_kernel_sil.Playbooks.Engine.{
  register_playbook, execute_all, handle_event, approved, approve_execution, get_execution,
}
use photon_kernel_sil.Playbooks.Runs.{registers, handles, step, Reachable, initial, after}
use photon_kernel_sil.Playbooks.Completion.{execute_playbook_performs, execute_playbook_completes}
use photon_kernel_sil.Playbooks.Approvals.{
  Turn, event_comes, person_approves, take_turns, AllGuarded, take_turns_hold,
}
use photon_kernel_sil.Playbooks.Defaults.{execute_playbook_succeeds}
use photon_kernel_sil.Playbooks.Waiting.{get_pending_approvals_lem}

abbrev nothing_found : String → Event → Bool
nothing_found pattern event = false

abbrev escape : Trigger
escape = record {
  type = escape_attempt;
  event_pattern = "";
  metric_name = "";
  threshold = 0;
  comparison = ">";
  risk_level = none;
}

abbrev isolation : Playbook
isolation = record {
  id = "isolate";
  name = "isolate on escape";
  description = "";
  trigger = escape;
  conditions = [];
  actions =
      plain_action snapshot_evidence
      ∷ record (plain_action isolate_container) { params = ("container_id", "{container_id}") ∷ [] }
      ∷ [];
  on_failure = "alert";
  enabled = true;
  priority = 10;
  created_at = 0;
  tags = [];
}

-- The same, with an approval before the isolation
abbrev careful : Playbook
careful = record isolation {
  id = "careful";
  actions =
      plain_action snapshot_evidence
      ∷ record (plain_action isolate_container) { require_approval = true }
      ∷ [];
}

abbrev attempt : Event
attempt = record {
  fields = ("type", "escape_attempt") ∷ ("container_id", "c123") ∷ [];
  metrics = [];
}

abbrev world : String → World
world id = record { clock = λ k. 100 + k; execution_id = id; uuids = λ k. "a1" }

abbrev engine : PlaybookEngine
engine =
    step nothing_found (step nothing_found new_engine (registers isolation)) (registers careful)

abbrev named : ℕ → World
named k = world (if k == 0 then "x0" else "x1")

abbrev after_attempt : PlaybookEngine
after_attempt = step nothing_found engine (handles named attempt)

execute_playbook_performs_example :
    let results = (execute_playbook (world "x") engine careful attempt).1.action_results in
    (map (λ r. r.action_type) results ≡ map (λ a. a.type) (take (length results) careful.actions))
    × (any (λ a. a.require_approval) (take (length results) careful.actions) ≡ false)
    × (length results ≤ count (λ r. r.success) results + 1)
execute_playbook_performs_example = execute_playbook_performs (world "x") engine careful attempt

execute_playbook_completes_example :
    let y = (execute_playbook (world "x") engine careful attempt).1 in
    (y.status == completed) ≡ (
      not (any (λ a. a.require_approval) careful.actions)
      && (count (λ r. r.success) y.action_results == length careful.actions))
execute_playbook_completes_example = execute_playbook_completes (world "x") engine careful attempt

execute_playbook_succeeds_example :
    let y = (execute_playbook (world "x") engine isolation attempt).1 in
    (y.status ≡ completed)
    × (map (λ r. r.action_type) y.action_results ≡ map (λ a. a.type) isolation.actions)
    × (count (λ r. r.success) y.action_results ≡ length isolation.actions)
unfolding step register_playbook
execute_playbook_succeeds_example =
    execute_playbook_succeeds (world "x") engine isolation attempt refl refl

-- The execution of the second playbook stops before the isolation.
abbrev stopped : PlaybookExecution
stopped = (execute_playbook (world "x1") engine careful attempt).1

after_attempt-pending : get after_attempt.pending_approvals "x1" ≡ some stopped
unfolding step register_playbook handle_event execute_all triggered_by match_trigger
    match_conditions metric_matches TriggerType-discrete sort_by insert_by get put execute_playbook
    run_actions begin conclude audit execute_action resolve_params braced PlaybookStatus-discrete
    ActionType-discrete get_or
after_attempt-pending = refl

after_attempt-Reachable : Reachable nothing_found after_attempt
unfolding step register_playbook handle_event execute_all triggered_by match_trigger
    match_conditions metric_matches TriggerType-discrete sort_by insert_by get put execute_playbook
    run_actions begin conclude audit execute_action resolve_params braced PlaybookStatus-discrete
    ActionType-discrete get_or
after_attempt-Reachable =
    after engine (handles named attempt)
      (after (step nothing_found new_engine (registers isolation)) (registers careful)
        (after new_engine (registers isolation) initial tt) tt)
      (refl, (refl, tt))

get_pending_approvals_lem_example :
    (stopped.status ≡ waiting_approval) × (get_execution after_attempt "x1" ≡ some stopped)
get_pending_approvals_lem_example =
    get_pending_approvals_lem nothing_found after_attempt "x1" stopped after_attempt-Reachable
      after_attempt-pending

-- The attempt, and the approval of the execution that stopped
abbrev turns : List Turn
turns = event_comes named attempt ∷ person_approves (world "x2") "x1" "root" ∷ []

approved_found :
    get_execution (take_turns nothing_found engine turns) "x1" ≡ some (approved "root" stopped)
unfolding take_turns step register_playbook handle_event execute_all triggered_by match_trigger
    match_conditions metric_matches TriggerType-discrete sort_by insert_by get put execute_playbook
    run_actions begin conclude audit execute_action resolve_params braced PlaybookStatus-discrete
    ActionType-discrete get_or approve_execution get_execution
approved_found = refl

engine-AllGuarded : AllGuarded "careful" engine
unfolding step register_playbook put
engine-AllGuarded = refl

engine_empty : engine.executions ≡ []
unfolding step register_playbook
engine_empty = refl

approved_named : (approved "root" stopped).playbook_id ≡ "careful"
unfolding execute_playbook run_actions begin conclude audit execute_action resolve_params braced
    PlaybookStatus-discrete ActionType-discrete get_or approved get step register_playbook
approved_named = refl

take_turns_hold_example : ((approved "root" stopped).status == completed) ≡ false
take_turns_hold_example =
    take_turns_hold nothing_found engine turns "careful" "x1" (approved "root" stopped)
      engine-AllGuarded engine_empty approved_found approved_named
