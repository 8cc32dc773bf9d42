-- ===== src/Playbooks/Defaults.antt =====
-- ops/playbook_engine.py: with the handlers of the start, every action succeeds.
use photon_kernel_sil.Prelude.{
  ℕ, suc, ◌≤◌, String, Bool, true, false, List, [], ◌∷◌, ◌++◌, map, Option, none, some, ◌≡◌, inl,
  inr, refl, sym, ap, ◌∙◌, arith, ◌==◌, nat_eq, string_eq, ==_iff, any, count, take, length,
  take_all, Option-cases, if-true, if-false, subst,
}
use photon_kernel_sil.Prelude.Dict.{Dict, get}
use photon_kernel_sil.Playbooks.Types.{
  ActionType, action_type_eq, ActionType-discrete, playbook_status_eq, PlaybookStatus-discrete,
  running, completed, Action, Playbook, Event, ActionResult, PlaybookExecution, World, Handler,
  Outcome, returned, returned_other, raised, PlaybookEngine, isolate_container, freeze_account,
  revoke_capability, shutdown_sandbox, send_alert, popup_notification, scale_up, scale_down,
  create_ticket, snapshot_evidence, rollback, notify_admin,
}
use photon_kernel_sil.Playbooks.Handlers.{default_handlers}
use photon_kernel_sil.Playbooks.Execution.{
  audit, finished, resolve_params, execute_action, run_actions, begin, conclude, execute_playbook,
}
use photon_kernel_sil.Playbooks.Outcomes.{execute_action-Same}
use photon_kernel_sil.Playbooks.Results.{execute_playbook-Executed}

abbrev succeeded : Outcome → Bool
succeeded (returned output) = true
succeeded (returned_other printed) = true
succeeded (raised error) = false

abbrev handled : Option Handler → String → Dict String String → Event → Bool
handled none uuid params event = false
handled (some h) uuid params event = succeeded (h uuid params event)

default_handlers-handled :
    (type : ActionType) (uuid : String) (params : Dict String String) (event : Event)
    → handled (get default_handlers type) uuid params event ≡ true
unfolding get ActionType-discrete
default_handlers-handled isolate_container uuid params event = refl
default_handlers-handled freeze_account uuid params event = refl
default_handlers-handled revoke_capability uuid params event = refl
default_handlers-handled shutdown_sandbox uuid params event = refl
default_handlers-handled send_alert uuid params event = refl
default_handlers-handled popup_notification uuid params event = refl
default_handlers-handled scale_up uuid params event = refl
default_handlers-handled scale_down uuid params event = refl
default_handlers-handled create_ticket uuid params event = refl
default_handlers-handled snapshot_evidence uuid params event = refl
default_handlers-handled rollback uuid params event = refl
default_handlers-handled notify_admin uuid params event = refl

finished-success :
    (type : ActionType) (o : Outcome) (r : ActionResult)
    → succeeded o ≡ true
    → (finished type o r).success ≡ true
finished-success type (returned output) r h = refl
finished-success type (returned_other t) r h = refl
finished-success type (raised t) r h = cc

execute_action-default :
    (w : World) (n : ℕ) (a : Action) (event : Event) (x : PlaybookExecution)
    → (execute_action default_handlers w n a event x).0.success ≡ true
unfolding execute_action
execute_action-default w n a event x =
    let ok = default_handlers-handled a.type (w.uuids n) (resolve_params [] a.params event) event in
    elim (Option-cases (get default_handlers a.type)) [
      | inl e ↦ absurd (
          ground
            (arith, ok, ap (λ o. handled o (w.uuids n) (resolve_params [] a.params event) event) e))
      | inr (h, e) ↦
          let ok' =
            sym (ap (λ o. handled o (w.uuids n) (resolve_params [] a.params event) event) e) ∙ ok in
          rw (e, execute_action)
            (finished-success a.type (h (w.uuids n) (resolve_params [] a.params event) event) _ ok')
    ]

run_actions-default :
    (actions : List Action) (w : World) (n : ℕ) (p : Playbook) (event : Event)
    (x : PlaybookExecution)
    → any (λ a. a.require_approval) actions ≡ false
    → x.status ≡ running
    → ((run_actions default_handlers w n p actions event x).0.status ≡ running)
      × ((run_actions default_handlers w n p actions event x).1 ≡ false)
unfolding run_actions
run_actions-default [] w n p event x free e = (e, refl)
run_actions-default (a ∷ actions) w n p event x free e =
    let (_, kept) = execute_action-Same default_handlers w event n a x in
    let r = (execute_action default_handlers w n a event x).0 in
    let x1 = (execute_action default_handlers w n a event x).1 in
    let x2 = record x1 { action_results = x1.action_results ++ r ∷ [] } in
    let rest = run_actions-default actions w (suc n) p event x2 (ground (arith, free)) (kept ∙ e) in
    let runs = λ (z : PlaybookExecution × Bool). (z.0.status ≡ running) × (z.1 ≡ false) in
    subst runs (sym (if-false a.require_approval _ _ (ground (arith, free))))
      (subst runs (sym (if-true r.success _ _ (execute_action-default w n a event x))) rest)

length-map : {A B : Type 0} (f : A → B) (xs : List A) → length (map f xs) ≡ length xs
length-map f [] = refl
length-map f (x ∷ xs) = ap suc (length-map f xs)

count-le : {A : Type 0} (p : A → Bool) (xs : List A) → count p xs ≤ length xs
count-le p [] = omega arith
count-le p (x ∷ xs) = ground (arith, count-le p xs)

is_completed : (y : PlaybookExecution) → y.status ≡ completed → (y.status == completed) ≡ true
is_completed y e = (==_iff y.status completed).1 e

execute_playbook-status :
    (w : World) (engine : PlaybookEngine) (p : Playbook) (event : Event)
    → engine.action_handlers ≡ default_handlers
    → any (λ a. a.require_approval) p.actions ≡ false
    → (execute_playbook w engine p event).1.status ≡ completed
unfolding execute_playbook begin audit conclude PlaybookStatus-discrete
execute_playbook-status w engine p event e free =
    let x = begin w p event in
    let (runs, goes) = run_actions-default p.actions w 0 p event x free refl in
    let z = λ (h : Dict ActionType Handler). run_actions h w 0 p p.actions event x in
    let runs' = ap (λ h. (z h).0.status) e ∙ runs in
    let goes' = ap (λ h. (z h).1) e ∙ goes in ground (arith, runs', goes')

-- With the handlers of the start, a playbook none of whose actions requires an approval is
-- completed: every one of its actions has a result, in their order, and every result is a success.
pub execute_playbook_succeeds :
    (w : World) (engine : PlaybookEngine) (p : Playbook) (event : Event)
    → engine.action_handlers ≡ default_handlers
    → any (λ a. a.require_approval) p.actions ≡ false
    → let y = (execute_playbook w engine p event).1 in
      (y.status ≡ completed)
      × (map (λ r. r.action_type) y.action_results ≡ map (λ a. a.type) p.actions)
      × (count (λ r. r.success) y.action_results ≡ length p.actions)
execute_playbook_succeeds w engine p event e free =
    let y = (execute_playbook w engine p event).1 in
    let d = (execute_playbook-Executed w engine p event).done in
    let status = execute_playbook-status w engine p event e free in
    let n = length y.action_results in
    let all : count (λ r. r.success) y.action_results ≡ length p.actions =
      ground (arith, d.complete, status, is_completed y status) in
    let enough : take n p.actions ≡ p.actions =
      take_all n p.actions (omega (arith, all, count-le (λ r. r.success) y.action_results)) in
    (status, d.in_order ∙ ap (map (λ a. a.type)) enough, all)
