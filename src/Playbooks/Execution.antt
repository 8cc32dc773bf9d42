-- ===== src/Playbooks/Execution.antt =====
-- ops/playbook_engine.py: the execution of a playbook.
use photon_kernel_sil.Prelude.{
  ℕ, suc, ◌+◌, ◌-◌, ◌*◌, String, Bool, true, false, List, [], ◌∷◌, ◌++◌, none, some, ◌==◌,
  string_eq, length, if◌then◌else◌,
}
use photon_kernel_sil.Prelude.Dict.{Dict, get, get_or, put}
use photon_kernel_sil.Prelude.Text.{text_append, braced}
use photon_kernel_sil.Playbooks.Types.{
  ActionType, action_value, action_type_eq, send_alert, playbook_status_eq, running,
  waiting_approval, completed, failed, rolled_back, Action, Playbook, Event, ActionResult,
  PlaybookExecution, Outcome, returned, returned_other, raised, World, Handler, PlaybookEngine,
}

-- `_audit`
unfoldable pub audit : PlaybookExecution → String → PlaybookExecution
audit x message = record x { audit_log = x.audit_log ++ message ∷ [] }

-- `_resolve_params`
unfoldable pub resolve_params : Dict String String → Dict String String → Event → Dict String String
resolve_params resolved [] event = resolved
resolve_params resolved ((key, value) ∷ params) event =
    resolve_params
      (put resolved key (elim (braced value) [
        | none ↦ value
        | some event_key ↦ get_or event.fields event_key value
      ]))
      params event

-- A result that is not finished
abbrev pub unfinished : ActionType → ℕ → ActionResult
unfinished type now = record {
  action_type = type;
  success = false;
  message = "";
  started_at = now;
  completed_at = 0;
  duration = 0;
  output = [];
}

abbrev pub closed : ℕ → ActionResult → ActionResult
closed now r = record r { completed_at = now; duration = now - r.started_at }

abbrev pub finished : ActionType → Outcome → ActionResult → ActionResult
finished type (returned output) r = record r {
  success = true;
  message = text_append "动作执行成功: " (action_value type);
  output = output;
}
finished type (returned_other printed) r = record r {
  success = true;
  message = text_append "动作执行成功: " (action_value type);
  output = ("result", printed) ∷ [];
}
finished type (raised error) r = record r { message = text_append "动作执行异常: " error }

-- The audit of an exception
abbrev pub audit_outcome : ActionType → Outcome → PlaybookExecution → PlaybookExecution
audit_outcome type (returned output) x = x
audit_outcome type (returned_other printed) x = x
audit_outcome type (raised error) x =
    audit x (text_append "动作异常: " (text_append (action_value type) (text_append " - " error)))

abbrev pub unregistered : ActionType → String
unregistered type = text_append "未注册动作处理器: " (action_value type)

-- `Action(type=…)`
abbrev pub plain_action : ActionType → Action
plain_action type = record {
  type = type;
  params = [];
  require_approval = false;
  timeout_seconds = 30;
  retry_count = 1;
  rollback_action = none;
}

module _ (handlers : Dict ActionType Handler) (w : World) where
  -- `_execute_action`, the n-th of an execution
  unfoldable pub execute_action :
      ℕ → Action → Event → PlaybookExecution → ActionResult × PlaybookExecution
  unfolding audit resolve_params
  execute_action n action event x =
      let r = unfinished action.type (w.clock (2 * n + 1)) in
      elim (get handlers action.type) [
        | none ↦ (
          record r { message = unregistered action.type },
          audit x (text_append "动作失败: " (unregistered action.type)),
        )
        | some handler ↦
            let outcome = handler (w.uuids n) (resolve_params [] action.params event) event in
            (
              closed (w.clock (2 * n + 2)) (finished action.type outcome r),
              audit_outcome action.type outcome x,
            )
      ]

  -- The branches of `_handle_failure` without a rollback; the action that it executes is the n-th.
  unfoldable pub stop : ℕ → Playbook → Event → PlaybookExecution → PlaybookExecution
  stop n playbook event x =
      if playbook.on_failure == "manual"
      then audit (record x { status = waiting_approval }) "等待人工介入"
      else record (execute_action n (plain_action send_alert) event x).1 { status = failed }

  -- `_handle_failure`
  unfoldable pub handle_failure :
      ℕ → Playbook → Action → Event → PlaybookExecution → PlaybookExecution
  handle_failure n playbook action event x =
      let x1 = audit x (text_append "动作失败: " (action_value action.type)) in
      if playbook.on_failure == "rollback"
      then elim action.rollback_action [
        | none ↦ stop n playbook event x1
        | some type ↦ record (execute_action n (plain_action type) event (audit x1 "执行回滚")).1 {
          status = rolled_back;
        }
      ]
      else stop n playbook event x1

  -- The loop of `_execute_playbook` from the n-th action; true where it stops for an approval.
  unfoldable pub run_actions :
      ℕ → Playbook → List Action → Event → PlaybookExecution → PlaybookExecution × Bool
  run_actions n playbook [] event x = (x, false)
  run_actions n playbook (action ∷ actions) event x =
      let (result, x1) = execute_action n action event x in
      let x2 = record x1 { action_results = x1.action_results ++ result ∷ [] } in
      let rest = run_actions (suc n) playbook actions event x2 in
      if action.require_approval
      then (
        audit (record x { status = waiting_approval })
            (text_append "等待人工审批: " (action_value action.type)),
        true,
      )
      else if result.success
      then rest
      else (handle_failure (suc n) playbook action event x2, false)

-- The execution at its start
unfoldable pub begin : World → Playbook → Event → PlaybookExecution
begin w playbook event =
    audit
      (record {
        execution_id = w.execution_id;
        playbook_id = playbook.id;
        playbook_name = playbook.name;
        trigger_event = event;
        status = running;
        action_results = [];
        started_at = w.clock 0;
        completed_at = 0;
        duration = 0;
        error = "";
        approver = "";
        audit_log = [];
      })
      (text_append "剧本开始执行: " playbook.name)

-- After the loop; `now` is the reading of the clock then.
unfoldable pub conclude : ℕ → PlaybookExecution → PlaybookExecution
conclude now x =
    let x' = if x.status == running then audit (record x { status = completed }) "剧本执行完成" else x in
    record x' { completed_at = now; duration = now - x'.started_at }

-- `_execute_playbook`. An execution is a shared object in the source; here it is stored when the
-- method ends.
unfoldable pub execute_playbook :
    World → PlaybookEngine → Playbook → Event → PlaybookEngine × PlaybookExecution
execute_playbook w engine playbook event =
    let (x, waits) =
      run_actions engine.action_handlers w 0 playbook playbook.actions event
        (begin w playbook event) in
    let done = conclude (w.clock (2 * length playbook.actions + 3)) x in
    if waits
    then (
      record engine {
        executions = put engine.executions w.execution_id x;
        pending_approvals = put engine.pending_approvals w.execution_id x;
      },
      x,
    )
    else (record engine { executions = put engine.executions w.execution_id done }, done)
