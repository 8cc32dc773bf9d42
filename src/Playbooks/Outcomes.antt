-- ===== src/Playbooks/Outcomes.antt =====
-- ops/playbook_engine.py: what an execution leaves, from its loop.
use photon_kernel_sil.Prelude.{
  ℕ, String, Bool, false, ◌≡◌, inl, inr, refl, ◌==◌, nat_eq, string_eq, Bool-cases, Option-cases,
}
use photon_kernel_sil.Prelude.Dict.{Dict, get}
use photon_kernel_sil.Playbooks.Types.{
  ActionType, send_alert, action_type_eq, PlaybookStatus-discrete, playbook_status_eq, running,
  completed, failed, rolled_back, PlaybookStatus, Action, Playbook, Event, ActionResult,
  PlaybookExecution, Outcome, returned, returned_other, raised, World, Handler,
}
use photon_kernel_sil.Playbooks.Execution.{
  finished, plain_action, audit, audit_outcome, execute_action, stop, handle_failure,
}

-- What an execution keeps of itself
pub record Same (x y : PlaybookExecution) : Type 0 where
  pub id : y.execution_id ≡ x.execution_id
  pub playbook : y.playbook_id ≡ x.playbook_id
  pub event : y.trigger_event ≡ x.trigger_event
  pub results : y.action_results ≡ x.action_results

audit_outcome-Same :
    (type : ActionType) (o : Outcome) (x : PlaybookExecution)
    → Same x (audit_outcome type o x) × ((audit_outcome type o x).status ≡ x.status)
unfolding audit
audit_outcome-Same type (returned output) x =
    (record { id = refl; playbook = refl; event = refl; results = refl }, refl)
audit_outcome-Same type (returned_other t) x =
    (record { id = refl; playbook = refl; event = refl; results = refl }, refl)
audit_outcome-Same type (raised t) x =
    (record { id = refl; playbook = refl; event = refl; results = refl }, refl)

-- After a failure an execution neither runs nor is complete.
pub record Failed (x y : PlaybookExecution) : Type 0 where
  pub same : Same x y
  pub stopped : (y.status == running) ≡ false
  pub open_end : (y.status == completed) ≡ false

Failed-audit :
    (x y : PlaybookExecution) (message : String) → Failed (audit x message) y → Failed x y
unfolding audit
Failed-audit x y message h = record {
  same = record {
    id = h.same.id;
    playbook = h.same.playbook;
    event = h.same.event;
    results = h.same.results;
  };
  stopped = h.stopped;
  open_end = h.open_end;
}

finished-type :
    (type : ActionType) (o : Outcome) (r : ActionResult)
    → (finished type o r).action_type ≡ r.action_type
finished-type type (returned output) r = refl
finished-type type (returned_other t) r = refl
finished-type type (raised t) r = refl

module _ (handlers : Dict ActionType Handler) (w : World) (event : Event) where
  pub execute_action-Same :
      (n : ℕ) (a : Action) (x : PlaybookExecution)
      → Same x (execute_action handlers w n a event x).1
        × ((execute_action handlers w n a event x).1.status ≡ x.status)
  unfolding execute_action audit
  execute_action-Same n a x = elim (Option-cases (get handlers a.type)) [
    | inl e ↦
        rw (e, execute_action)
          (record { id = refl; playbook = refl; event = refl; results = refl }, refl)
    | inr (h, e) ↦ rw (e, execute_action) (audit_outcome-Same a.type _ x)
  ]

  -- The test of one action
  abbrev pub succeeds : ℕ → Action → PlaybookExecution → Bool
  succeeds n a x = (execute_action handlers w n a event x).0.success

  pub execute_action-type :
      (n : ℕ) (a : Action) (x : PlaybookExecution)
      → (execute_action handlers w n a event x).0.action_type ≡ a.type
  unfolding execute_action
  execute_action-type n a x = elim (Option-cases (get handlers a.type)) [
    | inl e ↦ rw (e, execute_action) refl
    | inr (h, e) ↦ rw (e, execute_action) (finished-type a.type (h _ _ event) _)
  ]

  Failed-record :
      (n : ℕ) (a : Action) (x : PlaybookExecution) (s : PlaybookStatus)
      → (s == running) ≡ false
      → (s == completed) ≡ false
      → Failed x (record (execute_action handlers w n a event x).1 { status = s })
  Failed-record n a x s r c =
      let (h, _) = execute_action-Same n a x in
      record {
        same = record { id = h.id; playbook = h.playbook; event = h.event; results = h.results };
        stopped = r;
        open_end = c;
      }

  stop-Failed :
      (n : ℕ) (p : Playbook) (x : PlaybookExecution) → Failed x (stop handlers w n p event x)
  unfolding stop audit PlaybookStatus-discrete
  stop-Failed n p x = elim (Bool-cases (p.on_failure == "manual")) [
    | inl e ↦
        rw (e, stop)
          (record {
            same = record { id = refl; playbook = refl; event = refl; results = refl };
            stopped = refl;
            open_end = refl;
          })
    | inr e ↦ rw (e, stop) (Failed-record n (plain_action send_alert) x failed refl refl)
  ]

  pub handle_failure-Failed :
      (n : ℕ) (p : Playbook) (a : Action) (x : PlaybookExecution)
      → Failed x (handle_failure handlers w n p a event x)
  unfolding handle_failure audit PlaybookStatus-discrete
  handle_failure-Failed n p a x = elim (Bool-cases (p.on_failure == "rollback")) [
    | inl e ↦ elim (Option-cases a.rollback_action) [
      | inl f ↦ rw (e, f, handle_failure) (Failed-audit x _ _ (stop-Failed n p _))
      | inr (type, f) ↦
          rw (e, f, handle_failure)
            (Failed-audit x _ _
              (Failed-audit _ _ _ (Failed-record n (plain_action type) _ rolled_back refl refl)))
    ]
    | inr e ↦ rw (e, handle_failure) (Failed-audit x _ _ (stop-Failed n p _))
  ]
