-- ===== src/Guard/Types.antt =====
-- evolution/policy_guard.py: the data. Risk scores are in ten-thousandths, times in microseconds.
use photon_kernel_sil.Prelude.{ℕ, String, Bool, List, Option, Eq, eq_of_discrete}
use photon_kernel_sil.Prelude.Dict.{Dict}

pub data PolicyType : Type 0 where
  permission security compliance resource network : PolicyType

pub data PolicyAction : Type 0 where
  allow deny require_approval log_only : PolicyAction

pub data ValidationResultCode : Type 0 where
  allowed denied needs_approval suspicious : ValidationResultCode

pub data ApprovalStatus : Type 0 where
  pending approved rejected : ApprovalStatus

unfoldable pub PolicyType-discrete : Discrete PolicyType
PolicyType-discrete = hlevel

unfoldable pub PolicyAction-discrete : Discrete PolicyAction
PolicyAction-discrete = hlevel

unfoldable pub ApprovalStatus-discrete : Discrete ApprovalStatus
ApprovalStatus-discrete = hlevel

instance abbrev pub type_eq : Eq PolicyType
type_eq = eq_of_discrete PolicyType-discrete

instance abbrev pub action_eq : Eq PolicyAction
action_eq = eq_of_discrete PolicyAction-discrete

instance abbrev pub approval_eq : Eq ApprovalStatus
approval_eq = eq_of_discrete ApprovalStatus-discrete

pub record PolicyRule : Type 0 where
  pub rule_id : String
  pub policy_type : PolicyType
  pub action : PolicyAction
  pub description : String
  pub tool_pattern : Option String
  pub param_patterns : Dict String String
  pub agent_role : Option String
  pub priority : ℕ
  pub enabled : Bool

-- The value of a parameter: a text, or anything else by what `str` prints.
pub data Param : Type 0 where
  text other : String → Param

pub record ValidationResult : Type 0 where
  pub code : ValidationResultCode
  pub allowed : Bool
  pub reason : String
  pub matched_rules : List String
  pub risk_score : ℕ
  pub requires_approval : Bool
  pub approval_reason : String
  pub suspicious_patterns : List String
  pub timestamp : ℕ

-- An entry of the queue of approvals
pub record Approval : Type 0 where
  pub approval_id : String
  pub agent_id : String
  pub tool_name : String
  pub params : Dict String Param
  pub reason : String
  pub risk_score : ℕ
  pub timestamp : ℕ
  pub status : ApprovalStatus
  pub approver : Option String
  pub approved_at : Option ℕ
  pub reject_reason : Option String
  pub rejected_at : Option ℕ

pub record PolicyGuard : Type 0 where
  pub rules : Dict String PolicyRule
  pub approval_queue : List Approval
  pub total_checks : ℕ
  pub allowed : ℕ
  pub denied : ℕ
  pub needs_approval : ℕ
  pub injection_detected : ℕ
