-- ===== src/Playbooks/Completion.antt =====
-- ops/playbook_engine.py: what an execution performs, and when it completes.
use photon_kernel_sil.Prelude.{
  ℕ, suc, ◌+◌, ◌≤◌, String, Bool, false, not, ◌&&◌, List, [], ◌∷◌, map, ◌≡◌, refl, ap, ◌∙◌, arith,
  ◌==◌, nat_eq, string_eq, any, count, take, length, keep, count-keep,
}
use photon_kernel_sil.Prelude.Dict.{values}
use photon_kernel_sil.Prelude.Sorting.{sort_by, count-sort_by}
use photon_kernel_sil.Playbooks.Types.{
  action_type_eq, playbook_status_eq, completed, Playbook, Event, World, PlaybookEngine,
}
use photon_kernel_sil.Playbooks.Matching.{triggered_by, matches, sooner}
use photon_kernel_sil.Playbooks.Execution.{execute_playbook}
use photon_kernel_sil.Playbooks.Engine.{execute_all, handle_event}
use photon_kernel_sil.Playbooks.Results.{execute_playbook-Executed}

-- An execution has one result for each action from the first on, in their order; no action that
-- requires an approval has a result, and at most one result is a failure.
pub execute_playbook_performs :
    (w : World) (engine : PlaybookEngine) (p : Playbook) (event : Event)
    → let results = (execute_playbook w engine p event).1.action_results in
      (map (λ r. r.action_type) results ≡ map (λ a. a.type) (take (length results) p.actions))
      × (any (λ a. a.require_approval) (take (length results) p.actions) ≡ false)
      × (length results ≤ count (λ r. r.success) results + 1)
execute_playbook_performs w engine p event =
    let d = (execute_playbook-Executed w engine p event).done in (d.in_order, d.unapproved, d.tried)

-- An execution is completed exactly if no action of the playbook requires an approval and as many
-- results are successes as there are actions.
pub execute_playbook_completes :
    (w : World) (engine : PlaybookEngine) (p : Playbook) (event : Event)
    → let y = (execute_playbook w engine p event).1 in
      (y.status == completed) ≡ (
        not (any (λ a. a.require_approval) p.actions)
        && (count (λ r. r.success) y.action_results == length p.actions))
execute_playbook_completes w engine p event =
    (execute_playbook-Executed w engine p event).done.complete

-- How often a test holds of the executions that an event triggers under a playbook's id
executions-count :
    (worlds : ℕ → World) (playbooks : List Playbook) (k : ℕ) (engine : PlaybookEngine)
    (event : Event) (id : String)
    → count (λ x. x.playbook_id == id) (execute_all worlds k engine playbooks event).1
      ≡ count (λ p. p.id == id) playbooks
unfolding execute_all
executions-count worlds [] k engine event id = refl
executions-count worlds (p ∷ playbooks) k engine event id =
    let one = execute_playbook-Executed (worlds k) engine p event in
    let rest =
      executions-count worlds playbooks (suc k) (execute_playbook (worlds k) engine p event).0 event
        id in
    ground (arith, rest, ap (λ i. i == id) one.done.playbook)

-- An event triggers, under each id, as many executions as there are playbooks with the id that are
-- enabled and whose trigger and conditions the event matches.
pub handle_event_lem :
    (search : String → Event → Bool) (worlds : ℕ → World) (engine : PlaybookEngine) (event : Event)
    (id : String)
    → count (λ x. x.playbook_id == id) (handle_event search worlds engine event).1
      ≡ count (λ p. p.enabled && (matches search event p && (p.id == id))) (values engine.playbooks)
unfolding handle_event triggered_by
handle_event_lem search worlds engine event id =
    let enabled = keep (λ p. p.enabled) (values engine.playbooks) in
    executions-count worlds (triggered_by search engine event) 0 engine event id
    ∙ count-keep (matches search event) (λ p. p.id == id) (sort_by sooner enabled)
    ∙ count-sort_by sooner (λ p. matches search event p && (p.id == id)) enabled
    ∙ count-keep (λ p. p.enabled) (λ p. matches search event p && (p.id == id))
        (values engine.playbooks)
