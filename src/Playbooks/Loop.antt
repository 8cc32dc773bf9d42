-- ===== src/Playbooks/Loop.antt =====
-- ops/playbook_engine.py: the loop over the actions of a playbook.
use photon_kernel_sil.Prelude.{
  ℕ, suc, ◌+◌, ◌≤◌, Bool, true, false, not, ◌&&◌, List, [], ◌∷◌, ◌++◌, map, ◌≡◌, inl, inr, refl,
  sym, ap, ◌∙◌, arith, ◌==◌, nat_eq, any, count, take, length, Bool-cases, if-true, if-false, subst,
}
use photon_kernel_sil.Prelude.Dict.{Dict}
use photon_kernel_sil.Playbooks.Types.{
  ActionType, playbook_status_eq, PlaybookStatus-discrete, running, waiting_approval, completed,
  Action, Playbook, Event, ActionResult, PlaybookExecution, World, Handler,
}
use photon_kernel_sil.Playbooks.Execution.{audit, execute_action, run_actions}
use photon_kernel_sil.Playbooks.Outcomes.{
  execute_action-Same, execute_action-type, handle_failure-Failed,
}

append_nil : {A : Type 0} (xs : List A) → xs ++ [] ≡ xs
append_nil [] = refl
append_nil (x ∷ xs) = ap (◌∷◌ x) (append_nil xs)

append_assoc : {A : Type 0} (xs ys zs : List A) → (xs ++ ys) ++ zs ≡ xs ++ (ys ++ zs)
append_assoc [] ys zs = refl
append_assoc (x ∷ xs) ys zs = ap (◌∷◌ x) (append_assoc xs ys zs)

-- The loop over the actions took x to y with the new results `results`: one for each action from the
-- first, none of an action that needs an approval, and at most one failed. `waits` is whether it
-- stopped for an approval, and y runs on where all actions succeeded.
pub record Ran (actions : List Action) (x y : PlaybookExecution) (waits : Bool) : Type 0 where
  pub id : y.execution_id ≡ x.execution_id
  pub playbook : y.playbook_id ≡ x.playbook_id
  pub event : y.trigger_event ≡ x.trigger_event
  pub results : List ActionResult
  pub extends : y.action_results ≡ x.action_results ++ results
  pub in_order :
      map (λ r. r.action_type) results ≡ map (λ a. a.type) (take (length results) actions)
  pub unapproved : any (λ a. a.require_approval) (take (length results) actions) ≡ false
  pub tried : length results ≤ count (λ r. r.success) results + 1
  pub open_end : (y.status == completed) ≡ false
  pub finishes : (y.status == running) ≡ (
      not (any (λ a. a.require_approval) actions)
      && (count (λ r. r.success) results == length actions))
  pub held : waits ≡ true → y.status ≡ waiting_approval

-- The same of a pair
abbrev pub RanTo : List Action → PlaybookExecution → PlaybookExecution × Bool → Type 0
RanTo actions x z = Ran actions x z.0 z.1

module _ (handlers : Dict ActionType Handler) (w : World) (event : Event) where
  pub run_actions-Ran :
      (actions : List Action) (n : ℕ) (p : Playbook) (x : PlaybookExecution)
      → x.status ≡ running
      → RanTo actions x (run_actions handlers w n p actions event x)
  unfolding run_actions audit PlaybookStatus-discrete
  run_actions-Ran [] n p x e = record {
    id = refl;
    playbook = refl;
    event = refl;
    results = [];
    extends = sym (append_nil x.action_results);
    in_order = refl;
    unapproved = refl;
    tried = omega arith;
    open_end = rw e refl;
    finishes = rw e refl;
    held = λ h. cc;
  }
  run_actions-Ran (a ∷ actions) n p x e = elim (Bool-cases a.require_approval) [
    | inl needs ↦
        subst (RanTo (a ∷ actions) x) (sym (if-true a.require_approval _ _ needs)) (record {
          id = refl;
          playbook = refl;
          event = refl;
          results = [];
          extends = sym (append_nil x.action_results);
          in_order = refl;
          unapproved = refl;
          tried = omega arith;
          open_end = refl;
          finishes = ground (arith, needs);
          held = λ h. refl;
        })
    | inr free ↦
        let (kept_same, kept) = execute_action-Same handlers w event n a x in
        let type_same = execute_action-type handlers w event n a x in
        let r = (execute_action handlers w n a event x).0 in
        let x1 = (execute_action handlers w n a event x).1 in
        let x2 = record x1 { action_results = x1.action_results ++ r ∷ [] } in
        subst (RanTo (a ∷ actions) x) (sym (if-false a.require_approval _ _ free))
          (elim (Bool-cases r.success) [
            | inl good ↦
                let rest = run_actions-Ran actions (suc n) p x2 (kept ∙ e) in
                subst (RanTo (a ∷ actions) x) (sym (if-true r.success _ _ good)) (record {
                  id = rest.id ∙ kept_same.id;
                  playbook = rest.playbook ∙ kept_same.playbook;
                  event = rest.event ∙ kept_same.event;
                  results = r ∷ rest.results;
                  extends =
                      rest.extends
                      ∙ ap (λ xs. (xs ++ r ∷ []) ++ rest.results) kept_same.results
                      ∙ append_assoc x.action_results (r ∷ []) rest.results;
                  in_order =
                      ap (λ t. t ∷ map (λ r. r.action_type) rest.results) type_same
                      ∙ ap (◌∷◌ a.type) rest.in_order;
                  unapproved = ground (arith, free, rest.unapproved);
                  tried = ground (arith, good, rest.tried);
                  open_end = rest.open_end;
                  finishes = ground (arith, rest.finishes, good, free);
                  held = rest.held;
                })
            | inr bad ↦
                let f = handle_failure-Failed handlers w event (suc n) p a x2 in
                subst (RanTo (a ∷ actions) x) (sym (if-false r.success _ _ bad)) (record {
                  id = f.same.id ∙ kept_same.id;
                  playbook = f.same.playbook ∙ kept_same.playbook;
                  event = f.same.event ∙ kept_same.event;
                  results = r ∷ [];
                  extends = f.same.results ∙ ap (λ xs. xs ++ r ∷ []) kept_same.results;
                  in_order = ap (λ t. t ∷ []) type_same;
                  unapproved = ground (arith, free);
                  tried = ground (arith, bad);
                  open_end = f.open_end;
                  finishes = ground (arith, f.stopped, bad, free);
                  held = λ h. cc;
                })
          ])
  ]
