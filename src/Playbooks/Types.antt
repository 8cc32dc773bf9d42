-- ===== src/Playbooks/Types.antt =====
-- ops/playbook_engine.py: the data. Metrics and thresholds are thousandths, times are microseconds,
-- and the values of an event, of conditions and of parameters are texts.
use photon_kernel_sil.Prelude.{ℕ, String, Bool, List, Option, Eq, eq_of_discrete}
use photon_kernel_sil.Prelude.Dict.{Dict}

pub data TriggerType : Type 0 where
  compliance_violation security_threat metric_threshold escape_attempt resource_exhaustion
        audit_failure manual :
      TriggerType

unfoldable pub TriggerType-discrete : Discrete TriggerType
TriggerType-discrete = hlevel

instance abbrev pub trigger_type_eq : Eq TriggerType
trigger_type_eq = eq_of_discrete TriggerType-discrete

abbrev pub trigger_value : TriggerType → String
trigger_value compliance_violation = "compliance_violation"
trigger_value security_threat = "security_threat"
trigger_value metric_threshold = "metric_threshold"
trigger_value escape_attempt = "escape_attempt"
trigger_value resource_exhaustion = "resource_exhaustion"
trigger_value audit_failure = "audit_failure"
trigger_value manual = "manual"

pub data ActionType : Type 0 where
  isolate_container freeze_account revoke_capability shutdown_sandbox send_alert
        popup_notification :
      ActionType
  scale_up scale_down create_ticket snapshot_evidence rollback notify_admin : ActionType

unfoldable pub ActionType-discrete : Discrete ActionType
ActionType-discrete = hlevel

instance abbrev pub action_type_eq : Eq ActionType
action_type_eq = eq_of_discrete ActionType-discrete

abbrev pub action_value : ActionType → String
action_value isolate_container = "isolate_container"
action_value freeze_account = "freeze_account"
action_value revoke_capability = "revoke_capability"
action_value shutdown_sandbox = "shutdown_sandbox"
action_value send_alert = "send_alert"
action_value popup_notification = "popup_notification"
action_value scale_up = "scale_up"
action_value scale_down = "scale_down"
action_value create_ticket = "create_ticket"
action_value snapshot_evidence = "snapshot_evidence"
action_value rollback = "rollback"
action_value notify_admin = "notify_admin"

pub data RiskLevel : Type 0 where
  low medium high critical : RiskLevel

abbrev pub risk_value : RiskLevel → String
risk_value low = "low"
risk_value medium = "medium"
risk_value high = "high"
risk_value critical = "critical"

pub data PlaybookStatus : Type 0 where
  pending running waiting_approval completed failed rolled_back cancelled : PlaybookStatus

unfoldable pub PlaybookStatus-discrete : Discrete PlaybookStatus
PlaybookStatus-discrete = hlevel

instance abbrev pub playbook_status_eq : Eq PlaybookStatus
playbook_status_eq = eq_of_discrete PlaybookStatus-discrete

pub record Action : Type 0 where
  pub type : ActionType
  pub params : Dict String String
  pub require_approval : Bool
  pub timeout_seconds : ℕ
  pub retry_count : ℕ
  pub rollback_action : Option ActionType

pub record Trigger : Type 0 where
  pub type : TriggerType
  pub event_pattern : String
  pub metric_name : String
  pub threshold : ℕ
  pub comparison : String
  pub risk_level : Option RiskLevel

pub record Playbook : Type 0 where
  pub id : String
  pub name : String
  pub description : String
  pub trigger : Trigger
  pub conditions : Dict String String
  pub actions : List Action
  pub on_failure : String
  pub enabled : Bool
  pub priority : ℕ
  pub created_at : ℕ
  pub tags : List String

-- An event: its texts under their keys, and the numbers under "metrics"
pub record Event : Type 0 where
  pub fields : Dict String String
  pub metrics : Dict String ℕ

pub record ActionResult : Type 0 where
  pub action_type : ActionType
  pub success : Bool
  pub message : String
  pub started_at : ℕ
  pub completed_at : ℕ
  pub duration : ℕ
  pub output : Dict String String

-- `audit_log` has the messages, without the printed time and id in front of each.
pub record PlaybookExecution : Type 0 where
  pub execution_id : String
  pub playbook_id : String
  pub playbook_name : String
  pub trigger_event : Event
  pub status : PlaybookStatus
  pub action_results : List ActionResult
  pub started_at : ℕ
  pub completed_at : ℕ
  pub duration : ℕ
  pub error : String
  pub approver : String
  pub audit_log : List String

-- What a handler does: it returns a dict, or something else that prints as a text, or raises.
pub data Outcome : Type 0 where
  returned : Dict String String → Outcome
  returned_other : String → Outcome
  raised : String → Outcome

-- What one execution takes from outside: the readings of the clock, its id, and the digits of the
-- uuids that the handlers of its actions make
pub record World : Type 0 where
  pub clock : ℕ → ℕ
  pub execution_id : String
  pub uuids : ℕ → String

-- A handler, with the digits of the uuid that it may make
abbrev pub Handler : Type 0
Handler = String → Dict String String → Event → Outcome

-- `PlaybookEngine`
pub record PlaybookEngine : Type 0 where
  pub playbooks : Dict String Playbook
  pub action_handlers : Dict ActionType Handler
  pub executions : Dict String PlaybookExecution
  pub pending_approvals : Dict String PlaybookExecution
