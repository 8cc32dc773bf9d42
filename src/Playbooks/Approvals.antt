-- ===== src/Playbooks/Approvals.antt =====
-- ops/playbook_engine.py: playbooks with an action that requires an approval, over the histories of
-- events, approvals and rejections.
use photon_kernel_sil.Prelude.{
  ℕ, suc, String, Bool, false, not, ◌&&◌, List, [], ◌∷◌, some, ◌≡◌, inl, inr, refl, sym, ap, ◌∙◌,
  subst, arith, ◌==◌, nat_eq, string_eq, ==_iff, any, keep, Option-cases,
}
use photon_kernel_sil.Prelude.Dict.{
  Dict, get, put, delete, values, Entries, Entries-put, Entries-get,
}
use photon_kernel_sil.Prelude.Sorting.{sort_by, any-sort_by}
use photon_kernel_sil.Playbooks.Types.{
  playbook_status_eq, PlaybookStatus-discrete, completed, Playbook, Event, PlaybookExecution, World,
  PlaybookEngine,
}
use photon_kernel_sil.Playbooks.Matching.{triggered_by, matches, sooner}
use photon_kernel_sil.Playbooks.Execution.{audit, execute_playbook}
use photon_kernel_sil.Playbooks.Engine.{
  execute_all, handle_event, approved, approve_execution, rejected, reject_execution, get_execution,
}
use photon_kernel_sil.Playbooks.Results.{execute_playbook-Executed}

-- What comes to an engine whose playbooks stay as they are: an event, an approval or a rejection
pub data Turn : Type 0 where
  event_comes : (ℕ → World) → Event → Turn
  person_approves : World → String → String → Turn
  person_rejects : String → String → Turn

abbrev pub take_turn : (String → Event → Bool) → PlaybookEngine → Turn → PlaybookEngine
take_turn search engine (event_comes worlds event) = (handle_event search worlds engine event).0
take_turn search engine (person_approves w id approver) = (approve_execution w engine id approver).0
take_turn search engine (person_rejects id reason) = (reject_execution engine id reason).0

unfoldable pub take_turns : (String → Event → Bool) → PlaybookEngine → List Turn → PlaybookEngine
take_turns search engine [] = engine
take_turns search engine (turn ∷ turns) = take_turns search (take_turn search engine turn) turns

-- A playbook under the id of which no action requires an approval
abbrev unguarded : String → Playbook → Bool
unguarded id p = (p.id == id) && not (any (λ a. a.require_approval) p.actions)

-- Every playbook under the id has an action that requires an approval.
abbrev pub AllGuarded : String → PlaybookEngine → Type 0
AllGuarded id engine =
    any (λ p. (p.id == id) && not (any (λ a. a.require_approval) p.actions))
      (values engine.playbooks)
    ≡ false

-- No execution of a playbook with the id is completed.
abbrev NoneCompleted : String → PlaybookEngine → Type 0
NoneCompleted id engine =
    Entries
      (λ (key : String) (x : PlaybookExecution).
        ((x.playbook_id == id) && (x.status == completed)) ≡ false)
      engine.executions

any-keep :
    {A : Type 0} (p q : A → Bool) (xs : List A) → any p xs ≡ false → any p (keep q xs) ≡ false
any-keep p q [] h = refl
any-keep p q (x ∷ xs) h = ground (arith, any-keep p q xs)

get-values :
    (p : Playbook → Bool) (d : Dict String Playbook) (key : String) (v : Playbook)
    → any p (values d) ≡ false
    → get d key ≡ some v
    → p v ≡ false
unfolding get
get-values p [] key v h e = absurd (ground (arith, e))
get-values p ((k, w) ∷ d) key v h e = ground (arith, get-values p d key v)

execute_playbook-NoneCompleted :
    (id : String) (w : World) (engine : PlaybookEngine) (p : Playbook) (event : Event)
    → unguarded id p ≡ false
    → NoneCompleted id engine
    → NoneCompleted id (execute_playbook w engine p event).0
execute_playbook-NoneCompleted id w engine p event guarded v =
    let h = execute_playbook-Executed w engine p event in
    subst
      (Entries (λ (key : String) (x : PlaybookExecution).
        ((x.playbook_id == id) && (x.status == completed)) ≡ false))
      (sym h.executions)
      (Entries-put _ engine.executions w.execution_id (execute_playbook w engine p event).1 v
        (ground (arith, h.done.complete, ap (λ i. i == id) h.done.playbook, guarded)))

-- What every turn keeps
record IsHeld (id : String) (engine : PlaybookEngine) : Type 0 where
  pub guarded : AllGuarded id engine
  pub held : NoneCompleted id engine

execute_playbook-IsHeld :
    (id : String) (w : World) (engine : PlaybookEngine) (p : Playbook) (event : Event)
    → unguarded id p ≡ false
    → IsHeld id engine
    → IsHeld id (execute_playbook w engine p event).0
execute_playbook-IsHeld id w engine p event guarded v = record {
  guarded =
      ap (λ d. any (unguarded id) (values d)) (execute_playbook-Executed w engine p event).playbooks
      ∙ v.guarded;
  held = execute_playbook-NoneCompleted id w engine p event guarded v.held;
}

execute_all-IsHeld :
    (id : String) (playbooks : List Playbook) (worlds : ℕ → World) (k : ℕ) (engine : PlaybookEngine)
    (event : Event)
    → any (unguarded id) playbooks ≡ false
    → IsHeld id engine
    → IsHeld id (execute_all worlds k engine playbooks event).0
unfolding execute_all
execute_all-IsHeld id [] worlds k engine event guarded v = v
execute_all-IsHeld id (p ∷ playbooks) worlds k engine event guarded v =
    execute_all-IsHeld id playbooks worlds (suc k) (execute_playbook (worlds k) engine p event).0
      event (ground (arith, guarded))
      (execute_playbook-IsHeld id (worlds k) engine p event (ground (arith, guarded)) v)

triggered_by-guarded :
    (search : String → Event → Bool) (id : String) (engine : PlaybookEngine) (event : Event)
    → AllGuarded id engine
    → any (unguarded id) (triggered_by search engine event) ≡ false
unfolding triggered_by
triggered_by-guarded search id engine event h =
    let enabled = keep (λ p. p.enabled) (values engine.playbooks) in
    any-keep (unguarded id) (matches search event) (sort_by sooner enabled) (
      any-sort_by sooner (unguarded id) enabled
      ∙ any-keep (unguarded id) (λ p. p.enabled) (values engine.playbooks) h)

-- An execution that is not completed takes the place of another.
stored-IsHeld :
    (id key : String) (x : PlaybookExecution) (engine : PlaybookEngine)
    (pending : Dict String PlaybookExecution)
    → (x.status == completed) ≡ false
    → IsHeld id engine
    → IsHeld id
        (record engine { pending_approvals = pending; executions = put engine.executions key x })
stored-IsHeld id key x engine pending unfinished v = record {
  guarded = v.guarded;
  held = Entries-put _ engine.executions key x v.held (ground (arith, unfinished));
}

take_turn-IsHeld :
    (search : String → Event → Bool) (id : String) (engine : PlaybookEngine) (turn : Turn)
    → IsHeld id engine
    → IsHeld id (take_turn search engine turn)
unfolding handle_event approve_execution reject_execution PlaybookStatus-discrete audit
take_turn-IsHeld search id engine (event_comes worlds event) v =
    execute_all-IsHeld id (triggered_by search engine event) worlds 0 engine event
      (triggered_by-guarded search id engine event v.guarded) v
take_turn-IsHeld search id engine (person_approves w execution_id approver) v =
    elim (Option-cases (get engine.pending_approvals execution_id)) [
      | inl e ↦ rw (e, take_turn, approve_execution) v
      | inr (x, e) ↦
          let x' = approved approver x in
          let pending = delete engine.pending_approvals execution_id in
          let engine' = record engine {
            pending_approvals = pending;
            executions = put engine.executions x.execution_id x';
          } in
          let v' = stored-IsHeld id x.execution_id x' engine pending refl v in
          elim (Option-cases (get engine.playbooks x.playbook_id)) [
            | inl f ↦ rw (e, take_turn, approve_execution, f) v'
            | inr (p, f) ↦
                rw (e, take_turn, approve_execution, f)
                  (execute_playbook-IsHeld id w engine' p x.trigger_event
                    (get-values (unguarded id) engine.playbooks x.playbook_id p v.guarded f) v')
          ]
    ]
take_turn-IsHeld search id engine (person_rejects execution_id reason) v =
    elim (Option-cases (get engine.pending_approvals execution_id)) [
      | inl e ↦ rw (e, take_turn, reject_execution) v
      | inr (x, e) ↦
          rw (e, take_turn, reject_execution)
            (stored-IsHeld id x.execution_id (rejected reason x) engine
              (delete engine.pending_approvals execution_id) refl v)
    ]

take_turns-IsHeld :
    (search : String → Event → Bool) (id : String) (engine : PlaybookEngine) (turns : List Turn)
    → IsHeld id engine
    → IsHeld id (take_turns search engine turns)
unfolding take_turns
take_turns-IsHeld search id engine [] v = v
take_turns-IsHeld search id engine (turn ∷ turns) v =
    take_turns-IsHeld search id (take_turn search engine turn) turns
      (take_turn-IsHeld search id engine turn v)

-- Where every playbook under an id has an action that requires an approval, and the engine has no
-- execution yet, then after any events, approvals and rejections, while the playbooks stay as they
-- are, no stored execution of the playbook is completed: not the one that a person approved, and none
-- that its approval has started.
pub take_turns_hold :
    (search : String → Event → Bool) (engine : PlaybookEngine) (turns : List Turn)
    (playbook_id execution_id : String) (x : PlaybookExecution)
    → AllGuarded playbook_id engine
    → engine.executions ≡ []
    → get_execution (take_turns search engine turns) execution_id ≡ some x
    → x.playbook_id ≡ playbook_id
    → (x.status == completed) ≡ false
unfolding get_execution
take_turns_hold search engine turns playbook_id execution_id x guarded empty found named =
    let start : IsHeld playbook_id engine = record { guarded = guarded; held = rw empty tt } in
    let v = take_turns-IsHeld search playbook_id engine turns start in
    ground (
      arith,
      Entries-get _ (take_turns search engine turns).executions execution_id x v.held found,
      (==_iff x.playbook_id playbook_id).1 named,
    )
