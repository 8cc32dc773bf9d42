-- ===== src/Playbooks/Engine.antt =====
-- ops/playbook_engine.py: the methods of the engine. `search` is whether a regular expression is
-- found in the JSON text of an event.
use photon_kernel_sil.Prelude.{
  ℕ, suc, String, Bool, List, [], ◌∷◌, Option, none, some, ◌==◌, string_eq, leb, keep, take,
}
use photon_kernel_sil.Prelude.Dict.{get, put, delete, values}
use photon_kernel_sil.Prelude.Text.{text_append}
use photon_kernel_sil.Prelude.Sorting.{sort_by}
use photon_kernel_sil.Playbooks.Types.{
  ActionType, action_type_eq, PlaybookStatus, playbook_status_eq, running, cancelled, Playbook,
  Event, PlaybookExecution, World, Handler, PlaybookEngine,
}
use photon_kernel_sil.Playbooks.Matching.{triggered_by}
use photon_kernel_sil.Playbooks.Execution.{audit, execute_playbook}

unfoldable pub register_playbook : PlaybookEngine → Playbook → PlaybookEngine
register_playbook engine p = record engine { playbooks = put engine.playbooks p.id p }

unfoldable pub unregister_playbook : PlaybookEngine → String → PlaybookEngine
unregister_playbook engine id = record engine { playbooks = delete engine.playbooks id }

unfoldable pub register_action_handler : PlaybookEngine → ActionType → Handler → PlaybookEngine
register_action_handler engine type handler = record engine {
  action_handlers = put engine.action_handlers type handler;
}

-- The loop of `handle_event` over the playbooks that match, the k-th with its world
unfoldable pub execute_all :
    (ℕ → World)
    → ℕ
    → PlaybookEngine
    → List Playbook
    → Event
    → PlaybookEngine × List PlaybookExecution
execute_all worlds k engine [] event = (engine, [])
execute_all worlds k engine (p ∷ playbooks) event =
    let (engine', x) = execute_playbook (worlds k) engine p event in
    let (engine'', xs) = execute_all worlds (suc k) engine' playbooks event in (engine'', x ∷ xs)

unfoldable pub handle_event :
    (String → Event → Bool)
    → (ℕ → World)
    → PlaybookEngine
    → Event
    → PlaybookEngine × List PlaybookExecution
unfolding execute_all
handle_event search worlds engine event =
    execute_all worlds 0 engine (triggered_by search engine event) event

unfoldable pub approved : String → PlaybookExecution → PlaybookExecution
approved approver x =
    audit (record x { approver = approver; status = running }) (text_append "人工审批通过: " approver)

unfoldable pub approve_execution :
    World → PlaybookEngine → String → String → PlaybookEngine × Option PlaybookExecution
unfolding approved
approve_execution w engine execution_id approver =
    elim (get engine.pending_approvals execution_id) [
      | none ↦ (engine, none)
      | some x ↦
          let x' = approved approver x in
          let engine' = record engine {
            pending_approvals = delete engine.pending_approvals execution_id;
            executions = put engine.executions x.execution_id x';
          } in
          elim (get engine.playbooks x.playbook_id) [
            | none ↦ (engine', some x')
            | some playbook ↦
                let (engine'', again) = execute_playbook w engine' playbook x.trigger_event in
                (engine'', some again)
          ]
    ]

unfoldable pub rejected : String → PlaybookExecution → PlaybookExecution
rejected reason x =
    audit (record x { status = cancelled; error = text_append "人工拒绝: " reason })
      (text_append "人工审批拒绝: " reason)

unfoldable pub reject_execution :
    PlaybookEngine → String → String → PlaybookEngine × Option PlaybookExecution
unfolding rejected
reject_execution engine execution_id reason = elim (get engine.pending_approvals execution_id) [
  | none ↦ (engine, none)
  | some x ↦
      let x' = rejected reason x in
      (
        record engine {
          pending_approvals = delete engine.pending_approvals execution_id;
          executions = put engine.executions x.execution_id x';
        },
        some x',
      )
]

unfoldable pub get_execution : PlaybookEngine → String → Option PlaybookExecution
get_execution engine id = get engine.executions id

-- `sort(key=started_at, reverse=True)`, which is stable
abbrev pub latest : PlaybookExecution → PlaybookExecution → Bool
latest x y = leb y.started_at x.started_at

unfoldable pub list_executions : PlaybookEngine → Option PlaybookStatus → ℕ → List PlaybookExecution
list_executions engine status limit = take limit (
    sort_by latest (elim status [
      | none ↦ values engine.executions
      | some s ↦ keep (λ x. x.status == s) (values engine.executions)
    ]))

unfoldable pub get_pending_approvals : PlaybookEngine → List PlaybookExecution
get_pending_approvals engine = values engine.pending_approvals
