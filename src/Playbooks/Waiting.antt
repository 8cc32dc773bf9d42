-- ===== src/Playbooks/Waiting.antt =====
-- ops/playbook_engine.py: the executions that wait for an approval, over the histories of an engine.
use photon_kernel_sil.Prelude.{
  ℕ, suc, String, Bool, List, [], ◌∷◌, none, some, ◌≡◌, inl, inr, sym, ap, ◌∙◌, arith, ◌==◌,
  string_eq, ==_iff, Bool-cases, Option-cases,
}
use photon_kernel_sil.Prelude.Dict.{get, put, get-put, delete, get-delete}
use photon_kernel_sil.Playbooks.Types.{
  playbook_status_eq, waiting_approval, Playbook, Event, PlaybookExecution, World, PlaybookEngine,
}
use photon_kernel_sil.Playbooks.Matching.{triggered_by}
use photon_kernel_sil.Playbooks.Execution.{execute_playbook}
use photon_kernel_sil.Playbooks.Loading.{PlaybookData, load_playbooks, read_playbook}
use photon_kernel_sil.Playbooks.Engine.{
  register_playbook, unregister_playbook, register_action_handler, execute_all, handle_event,
  approved, approve_execution, rejected, reject_execution, get_execution,
}
use photon_kernel_sil.Playbooks.Results.{execute_playbook-Executed}
use photon_kernel_sil.Playbooks.Runs.{
  Operation, registers, unregisters, handles_with, loads, handles, approves, rejects, step,
  FreshAll, Fresh, Reachable, initial, after,
}

-- An execution that waits for an approval under an id has this id and this status, and it is the
-- execution that is stored under the id.
abbrev pub IsWaiting : PlaybookEngine → Type 0
IsWaiting engine =
    (id : String) (x : PlaybookExecution)
    → get engine.pending_approvals id ≡ some x
    → (x.status ≡ waiting_approval) × (x.execution_id ≡ id) × (get engine.executions id ≡ some x)

execute_playbook-IsWaiting :
    (w : World) (engine : PlaybookEngine) (p : Playbook) (event : Event)
    → get engine.executions w.execution_id ≡ none
    → IsWaiting engine
    → IsWaiting (execute_playbook w engine p event).0
execute_playbook-IsWaiting w engine p event fresh v id x found =
    let h = execute_playbook-Executed w engine p event in
    let y = (execute_playbook w engine p event).1 in
    let stored = ap (λ d. get d id) h.executions ∙ get-put engine.executions w.execution_id id y in
    let listed = sym (ap (λ d. get d id) h.pending) ∙ found in
    elim (Bool-cases (w.execution_id == id)) [
      | inl e ↦ elim (Bool-cases h.waits) [
        | inl f ↦
            let same_one : y ≡ x =
              ground (arith, listed, f, e, get-put engine.pending_approvals w.execution_id id y) in
            (
              ap (λ z. z.status) (sym same_one) ∙ h.done.held f,
              ap (λ z. z.execution_id) (sym same_one)
                  ∙ h.done.named
                  ∙ (==_iff w.execution_id id).0 e,
              ground (arith, stored, e, same_one),
            )
        | inr f ↦
            let there = v id x (ground (arith, listed, f)) in
            absurd (
              ground (
                arith,
                fresh,
                there.2,
                ap (get engine.executions) ((==_iff w.execution_id id).0 e),
              ))
      ]
      | inr e ↦
          let there =
            v id x
              (ground (arith, listed, e, get-put engine.pending_approvals w.execution_id id y)) in
          (there.0, there.1, ground (arith, stored, e, there.2))
    ]

execute_all-IsWaiting :
    (playbooks : List Playbook) (worlds : ℕ → World) (k : ℕ) (engine : PlaybookEngine)
    (event : Event)
    → FreshAll worlds k engine playbooks event
    → IsWaiting engine
    → IsWaiting (execute_all worlds k engine playbooks event).0
unfolding execute_all
execute_all-IsWaiting [] worlds k engine event fresh v = v
execute_all-IsWaiting (p ∷ playbooks) worlds k engine event fresh v =
    execute_all-IsWaiting playbooks worlds (suc k) (execute_playbook (worlds k) engine p event).0
      event fresh.1 (execute_playbook-IsWaiting (worlds k) engine p event fresh.0 v)

-- A decision takes the execution out of those that wait, and stores it with its new status.
decided-IsWaiting :
    (engine : PlaybookEngine) (id : String) (x x' : PlaybookExecution)
    → get engine.pending_approvals id ≡ some x
    → IsWaiting engine
    → IsWaiting (record engine {
      pending_approvals = delete engine.pending_approvals id;
      executions = put engine.executions x.execution_id x';
    })
decided-IsWaiting engine id x x' found v j y other =
    let named = (v id x found).1 in
    elim (Bool-cases (id == j)) [
      | inl e ↦ absurd (ground (arith, other, get-delete engine.pending_approvals id j, e))
      | inr e ↦
          let there = v j y (ground (arith, other, get-delete engine.pending_approvals id j, e)) in
          (
            there.0,
            there.1,
            ground (
              arith,
              get-put engine.executions x.execution_id j x',
              ap (λ i. i == j) named,
              e,
              there.2,
            ),
          )
    ]

load_playbooks-IsWaiting :
    (entries : List PlaybookData) (clock : ℕ → ℕ) (k : ℕ) (engine : PlaybookEngine)
    → IsWaiting engine
    → IsWaiting (load_playbooks clock k engine entries).0
unfolding load_playbooks register_playbook
load_playbooks-IsWaiting [] clock k engine v = v
load_playbooks-IsWaiting (d ∷ entries) clock k engine v =
    elim (Option-cases (read_playbook (clock k) d)) [
      | inl e ↦ rw (e, load_playbooks) v
      | inr (p, e) ↦
          rw (e, load_playbooks)
            (load_playbooks-IsWaiting entries clock (suc k) (register_playbook engine p) v)
    ]

decided-fresh :
    (engine : PlaybookEngine) (id other : String) (x x' : PlaybookExecution)
    → get engine.pending_approvals id ≡ some x
    → get engine.executions other ≡ none
    → IsWaiting engine
    → get (put engine.executions x.execution_id x') other ≡ none
decided-fresh engine id other x x' found fresh v =
    let there = v id x found in
    elim (Bool-cases (x.execution_id == other)) [
      | inl e ↦
          let same_id = sym there.1 ∙ (==_iff x.execution_id other).0 e in
          absurd (ground (arith, fresh, there.2, ap (get engine.executions) same_id))
      | inr e ↦ ground (arith, get-put engine.executions x.execution_id other x', e, fresh)
    ]

step-IsWaiting :
    (search : String → Event → Bool) (engine : PlaybookEngine) (o : Operation)
    → Fresh search engine o
    → IsWaiting engine
    → IsWaiting (step search engine o)
unfolding step register_playbook unregister_playbook register_action_handler handle_event
    approve_execution reject_execution
step-IsWaiting search engine (registers p) fresh v = v
step-IsWaiting search engine (unregisters id) fresh v = v
step-IsWaiting search engine (handles_with type handler) fresh v = v
step-IsWaiting search engine (loads clock entries) fresh v =
    load_playbooks-IsWaiting entries clock 0 engine v
step-IsWaiting search engine (handles worlds event) fresh v =
    execute_all-IsWaiting (triggered_by search engine event) worlds 0 engine event fresh v
step-IsWaiting search engine (approves w id approver) fresh v =
    elim (Option-cases (get engine.pending_approvals id)) [
      | inl e ↦ rw (e, step, approve_execution) v
      | inr (x, e) ↦
          let x' = approved approver x in
          let v' = decided-IsWaiting engine id x x' e v in
          elim (Option-cases (get engine.playbooks x.playbook_id)) [
            | inl f ↦ rw (e, f, step, approve_execution) v'
            | inr (p, f) ↦
                rw (e, f, step, approve_execution)
                  (execute_playbook-IsWaiting w _ p x.trigger_event
                    (decided-fresh engine id w.execution_id x x' e fresh v) v')
          ]
    ]
step-IsWaiting search engine (rejects id reason) fresh v =
    elim (Option-cases (get engine.pending_approvals id)) [
      | inl e ↦ rw (e, step, reject_execution) v
      | inr (x, e) ↦
          rw (e, step, reject_execution) (decided-IsWaiting engine id x (rejected reason x) e v)
    ]

Reachable-IsWaiting :
    (search : String → Event → Bool) (engine : PlaybookEngine)
    → Reachable search engine
    → IsWaiting engine
unfolding get
Reachable-IsWaiting search _ initial = λ id x found. cc
Reachable-IsWaiting search _ (after engine o r fresh) =
    step-IsWaiting search engine o fresh (Reachable-IsWaiting search engine r)

-- In every state that an engine can get to, where the ids of new executions are new, an execution
-- that is listed for an approval waits for one, and it is the execution that is found under its id.
pub get_pending_approvals_lem :
    (search : String → Event → Bool) (engine : PlaybookEngine) (id : String) (x : PlaybookExecution)
    → Reachable search engine
    → get engine.pending_approvals id ≡ some x
    → (x.status ≡ waiting_approval) × (get_execution engine id ≡ some x)
unfolding get_execution
get_pending_approvals_lem search engine id x r found =
    let there = Reachable-IsWaiting search engine r id x found in (there.0, there.2)
