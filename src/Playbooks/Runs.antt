-- ===== src/Playbooks/Runs.antt =====
-- Histories of a playbook engine.
use photon_kernel_sil.Prelude.{ℕ, suc, String, Bool, List, [], ◌∷◌, none, ◌≡◌, string_eq}
use photon_kernel_sil.Prelude.Dict.{get}
use photon_kernel_sil.Playbooks.Types.{ActionType, Playbook, Event, World, Handler, PlaybookEngine}
use photon_kernel_sil.Playbooks.Matching.{triggered_by}
use photon_kernel_sil.Playbooks.Execution.{execute_playbook}
use photon_kernel_sil.Playbooks.Handlers.{new_engine}
use photon_kernel_sil.Playbooks.Loading.{PlaybookData, load_playbooks}
use photon_kernel_sil.Playbooks.Engine.{
  register_playbook, unregister_playbook, register_action_handler, handle_event, approve_execution,
  reject_execution,
}

pub data Operation : Type 0 where
  registers : Playbook → Operation
  unregisters : String → Operation
  handles_with : ActionType → Handler → Operation
  loads : (ℕ → ℕ) → List PlaybookData → Operation
  handles : (ℕ → World) → Event → Operation
  approves : World → String → String → Operation
  rejects : String → String → Operation

unfoldable pub step : (String → Event → Bool) → PlaybookEngine → Operation → PlaybookEngine
step search engine (registers p) = register_playbook engine p
step search engine (unregisters id) = unregister_playbook engine id
step search engine (handles_with type handler) = register_action_handler engine type handler
step search engine (loads clock data') = (load_playbooks clock 0 engine data').0
step search engine (handles worlds event) = (handle_event search worlds engine event).0
step search engine (approves w id approver) = (approve_execution w engine id approver).0
step search engine (rejects id reason) = (reject_execution engine id reason).0

-- The id of each new execution is the id of no execution there is then.
abbrev pub FreshAll : (ℕ → World) → ℕ → PlaybookEngine → List Playbook → Event → Type 0
FreshAll worlds k engine [] event = Unit
FreshAll worlds k engine (p ∷ playbooks) event =
    (get engine.executions (worlds k).execution_id ≡ none)
    × FreshAll worlds (suc k) (execute_playbook (worlds k) engine p event).0 playbooks event

abbrev pub Fresh : (String → Event → Bool) → PlaybookEngine → Operation → Type 0
Fresh search engine (handles worlds event) =
    FreshAll worlds 0 engine (triggered_by search engine event) event
Fresh search engine (approves w id approver) = get engine.executions w.execution_id ≡ none
Fresh search engine (registers p) = Unit
Fresh search engine (unregisters id) = Unit
Fresh search engine (handles_with type handler) = Unit
Fresh search engine (loads clock data') = Unit
Fresh search engine (rejects id reason) = Unit

-- The states that an engine can get to
pub data Reachable (search : String → Event → Bool) : PlaybookEngine → Type 0 where
  initial : Reachable search new_engine
  after :
      (engine : PlaybookEngine) (o : Operation)
      → Reachable search engine
      → Fresh search engine o
      → Reachable search (step search engine o)
