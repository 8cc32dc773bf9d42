-- ===== src/Tickets/Types.antt =====
-- ops/ticket_system.py: the data of a ticket, and the tables of the class.
-- Times are in microseconds. A value of an event or of a history entry is the text that it prints.
use photon_kernel_sil.Prelude.{ℕ, ◌+◌, ◌*◌, String, Bool, List, [], ◌∷◌, Option, Eq, eq_of_discrete}
use photon_kernel_sil.Prelude.Dict.{Dict}

pub data Status : Type 0 where
  created triaged in_progress resolved closed escalated reopened : Status

pub data Priority : Type 0 where
  p1_critical p2_high p3_medium p4_low : Priority

pub data Category : Type 0 where
  security_threat compliance_violation escape_attempt resource_exhaustion system_error : Category
  performance_degradation audit_failure network_issue other : Category

pub data SlaStatus : Type 0 where
  in_time warning breached : SlaStatus

unfoldable pub Status-discrete : Discrete Status
Status-discrete = hlevel

unfoldable pub Priority-discrete : Discrete Priority
Priority-discrete = hlevel

unfoldable pub Category-discrete : Discrete Category
Category-discrete = hlevel

unfoldable pub SlaStatus-discrete : Discrete SlaStatus
SlaStatus-discrete = hlevel

instance abbrev pub status_eq : Eq Status
status_eq = eq_of_discrete Status-discrete

instance abbrev pub priority_eq : Eq Priority
priority_eq = eq_of_discrete Priority-discrete

instance abbrev pub category_eq : Eq Category
category_eq = eq_of_discrete Category-discrete

instance abbrev pub sla_eq : Eq SlaStatus
sla_eq = eq_of_discrete SlaStatus-discrete

pub record Comment : Type 0 where
  pub id : String
  pub author : String
  pub content : String
  pub created_at : ℕ
  pub attachments : List String
  pub internal : Bool

pub record HistoryEntry : Type 0 where
  pub timestamp : ℕ
  pub action : String
  pub author : String
  pub details : Dict String String

pub record PostMortem : Type 0 where
  pub root_cause : String
  pub impact : String
  pub timeline : List String
  pub corrective_actions : List String
  pub preventive_actions : List String
  pub lessons_learned : String
  pub author : String
  pub completed_at : ℕ

pub record Ticket : Type 0 where
  pub id : String
  pub title : String
  pub description : String
  pub category : Category
  pub priority : Priority
  pub status : Status
  pub assignee : String
  pub reporter : String
  pub created_at : ℕ
  pub updated_at : ℕ
  pub resolved_at : ℕ
  pub closed_at : ℕ
  pub sla_response_deadline : ℕ
  pub sla_resolve_deadline : ℕ
  pub comments : List Comment
  pub history : List HistoryEntry
  pub tags : List String
  pub related_tickets : List String
  pub source_event : Dict String String
  pub post_mortem : Option PostMortem
  pub escalation_count : ℕ
  pub custom_fields : Dict String String

-- One call of the notification callback. What it returns or raises is dropped.
pub record Notification : Type 0 where
  pub ticket : Ticket
  pub message : String

pub record System : Type 0 where
  pub tickets : Dict String Ticket
  pub notification_callback : Bool
  pub auto_increment : ℕ
  pub sent : List Notification

unfoldable pub init : Bool → System
init callback = record {
  tickets = [];
  notification_callback = callback;
  auto_increment = 0;
  sent = [];
}

abbrev pub second : ℕ
second = 1000000

-- The readings of `time.time()` in one call, in the order of the calls.
abbrev pub Clock : Type 0
Clock = ℕ → ℕ

abbrev pub later : ℕ → Clock → Clock
later k clock i = clock (k + i)

-- `SLA_RESPONSE` and `SLA_RESOLVE`, in seconds
abbrev pub sla_response : Priority → ℕ
sla_response p1_critical = 15 * 60
sla_response p2_high = 60 * 60
sla_response p3_medium = 4 * 60 * 60
sla_response p4_low = 24 * 60 * 60

abbrev pub sla_resolve : Priority → ℕ
sla_resolve p1_critical = 1 * 60 * 60
sla_resolve p2_high = 4 * 60 * 60
sla_resolve p3_medium = 24 * 60 * 60
sla_resolve p4_low = 72 * 60 * 60

-- The values of the enumerations.
abbrev pub priority_value : Priority → String
priority_value p1_critical = "P1_critical"
priority_value p2_high = "P2_high"
priority_value p3_medium = "P3_medium"
priority_value p4_low = "P4_low"

abbrev pub category_value : Category → String
category_value security_threat = "security_threat"
category_value compliance_violation = "compliance_violation"
category_value escape_attempt = "escape_attempt"
category_value resource_exhaustion = "resource_exhaustion"
category_value system_error = "system_error"
category_value performance_degradation = "performance_degradation"
category_value audit_failure = "audit_failure"
category_value network_issue = "network_issue"
category_value other = "other"

abbrev pub event_category_map : Dict String Category
event_category_map =
    ("escape_attempt", escape_attempt)
    ∷ ("security_threat", security_threat)
    ∷ ("compliance_violation", compliance_violation)
    ∷ ("resource_exhaustion", resource_exhaustion)
    ∷ ("system_error", system_error)
    ∷ ("performance_degradation", performance_degradation)
    ∷ ("audit_failure", audit_failure)
    ∷ ("network_issue", network_issue)
    ∷ []

abbrev pub risk_priority_map : Dict String Priority
risk_priority_map =
    ("critical", p1_critical) ∷ ("high", p2_high) ∷ ("medium", p3_medium) ∷ ("low", p4_low) ∷ []
