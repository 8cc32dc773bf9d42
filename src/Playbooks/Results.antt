-- ===== src/Playbooks/Results.antt =====
-- ops/playbook_engine.py: what an execution of a playbook and an approval come to.
use photon_kernel_sil.Prelude.{
  ℕ, ◌+◌, ◌*◌, ◌≤◌, String, Bool, true, false, not, ◌&&◌, map, ◌≡◌, inl, inr, refl, sym, ap, ◌∙◌,
  arith, ◌==◌, nat_eq, string_eq, any, count, take, length, Bool-cases, if◌then◌else◌, if-true,
  if-false, subst,
}
use photon_kernel_sil.Prelude.Dict.{put}
use photon_kernel_sil.Playbooks.Types.{
  playbook_status_eq, PlaybookStatus-discrete, running, waiting_approval, completed, Playbook,
  Event, PlaybookExecution, World, PlaybookEngine,
}
use photon_kernel_sil.Playbooks.Execution.{audit, run_actions, begin, conclude, execute_playbook}
use photon_kernel_sil.Playbooks.Loop.{run_actions-Ran}

conclude-rest :
    (now : ℕ) (x : PlaybookExecution)
    → ((conclude now x).execution_id ≡ x.execution_id)
      × ((conclude now x).playbook_id ≡ x.playbook_id)
      × ((conclude now x).action_results ≡ x.action_results)
unfolding conclude audit
conclude-rest now x = elim (Bool-cases (x.status == running)) [
  | inl e ↦ simp (e) (refl, refl, refl)
  | inr e ↦ simp (e) (refl, refl, refl)
]

conclude-status :
    (now : ℕ) (x : PlaybookExecution)
    → (x.status == completed) ≡ false
    → ((conclude now x).status == completed) ≡ (x.status == running)
unfolding conclude audit PlaybookStatus-discrete
conclude-status now x h = ground arith

-- What an execution has done, in terms of the results that it leaves
pub record Done (p : Playbook) (id : String) (event : Event) (waits : Bool) (y : PlaybookExecution)
    : Type 0 where
  pub named : y.execution_id ≡ id
  pub playbook : y.playbook_id ≡ p.id
  pub in_order :
      map (λ r. r.action_type) y.action_results
      ≡ map (λ a. a.type) (take (length y.action_results) p.actions)
  pub unapproved : any (λ a. a.require_approval) (take (length y.action_results) p.actions) ≡ false
  pub tried : length y.action_results ≤ count (λ r. r.success) y.action_results + 1
  pub complete : (y.status == completed) ≡ (
      not (any (λ a. a.require_approval) p.actions)
      && (count (λ r. r.success) y.action_results == length p.actions))
  pub held : waits ≡ true → y.status ≡ waiting_approval

-- An execution, and what it changes of the engine
pub record Executed (w : World) (engine : PlaybookEngine) (p : Playbook) (event : Event)
    (z : PlaybookEngine × PlaybookExecution) : Type 0 where
  pub waits : Bool
  pub done : Done p w.execution_id event waits z.1
  pub playbooks : z.0.playbooks ≡ engine.playbooks
  pub handlers : z.0.action_handlers ≡ engine.action_handlers
  pub executions : z.0.executions ≡ put engine.executions w.execution_id z.1
  pub pending : z.0.pending_approvals ≡ (
      if waits then put engine.pending_approvals w.execution_id z.1 else engine.pending_approvals)

pub execute_playbook-Executed :
    (w : World) (engine : PlaybookEngine) (p : Playbook) (event : Event)
    → Executed w engine p event (execute_playbook w engine p event)
unfolding execute_playbook begin audit PlaybookStatus-discrete
execute_playbook-Executed w engine p event =
    let x = begin w p event in
    let z = run_actions engine.action_handlers w 0 p p.actions event x in
    let h = run_actions-Ran engine.action_handlers w event p.actions 0 p x refl in
    let now = w.clock (2 * length p.actions + 3) in
    let (a, b, c) = conclude-rest now z.0 in
    elim (Bool-cases z.1) [
      | inl e ↦ subst (Executed w engine p event) (sym (if-true z.1 _ _ e)) (record {
        waits = true;
        done = record {
          named = h.id;
          playbook = h.playbook;
          in_order = rw h.extends h.in_order;
          unapproved = rw h.extends h.unapproved;
          tried = rw h.extends h.tried;
          complete = ground (
            arith,
            ap (λ xs. count (λ r. r.success) xs) h.extends,
            h.held e,
            h.finishes,
            h.open_end,
          );
          held = λ _. h.held e;
        };
        playbooks = refl;
        handlers = refl;
        executions = refl;
        pending = refl;
      })
      | inr e ↦ subst (Executed w engine p event) (sym (if-false z.1 _ _ e)) (record {
        waits = false;
        done = record {
          named = a ∙ h.id;
          playbook = b ∙ h.playbook;
          in_order = rw (c, h.extends) h.in_order;
          unapproved = rw (c, h.extends) h.unapproved;
          tried = rw (c, h.extends) h.tried;
          complete =
              conclude-status now z.0 h.open_end
              ∙ h.finishes
              ∙ ap
                  (λ xs.
                    not (any (λ a. a.require_approval) p.actions)
                    && (count (λ r. r.success) xs == length p.actions))
                  (sym (c ∙ h.extends));
          held = λ e'. cc;
        };
        playbooks = refl;
        handlers = refl;
        executions = refl;
        pending = refl;
      })
    ]
