-- ===== src/Playbooks/Loading.antt =====
-- ops/playbook_engine.py: `load_playbooks_from_json`, from the data that the JSON parser gives. A
-- missing key that the code requires, and an unknown value of an enumeration, raise; the playbooks
-- before it stay registered.
use photon_kernel_sil.Prelude.{
  ℕ, suc, String, Bool, true, false, List, [], ◌∷◌, Option, none, some, ◌==◌, string_eq,
  if◌then◌else◌,
}
use photon_kernel_sil.Prelude.Dict.{Dict}
use photon_kernel_sil.Prelude.Text.{truthy}
use photon_kernel_sil.Playbooks.Types.{
  TriggerType, trigger_value, compliance_violation, security_threat, metric_threshold,
  escape_attempt, resource_exhaustion, audit_failure, manual, ActionType, action_value,
  isolate_container, freeze_account, revoke_capability, shutdown_sandbox, send_alert,
  popup_notification, scale_up, scale_down, create_ticket, snapshot_evidence, rollback,
  notify_admin, RiskLevel, risk_value, low, medium, high, critical, Action, Trigger, Playbook,
  PlaybookEngine,
}
use photon_kernel_sil.Playbooks.Engine.{register_playbook}

infixl 5 ◌>>=◌
-- To go on where nothing was raised
abbrev ◌>>=◌ {ℓ κ} : {A : Type ℓ} {B : Type κ} → Option A → (A → Option B) → Option B
none >>= f = none
some a >>= f = f a

pub record ActionData : Type 0 where
  pub type : Option String
  pub params : Option (Dict String String)
  pub require_approval : Option Bool
  pub timeout_seconds : Option ℕ
  pub retry_count : Option ℕ
  pub rollback_action : Option String

pub record TriggerData : Type 0 where
  pub type : Option String
  pub event_pattern : Option String
  pub metric_name : Option String
  pub threshold : Option ℕ
  pub comparison : Option String
  pub risk_level : Option String

pub record PlaybookData : Type 0 where
  pub id : Option String
  pub name : Option String
  pub description : Option String
  pub trigger : Option TriggerData
  pub conditions : Option (Dict String String)
  pub actions : Option (List ActionData)
  pub on_failure : Option String
  pub enabled : Option Bool
  pub priority : Option ℕ
  pub tags : Option (List String)

-- The member with a value, or none where the enumeration raises
abbrev pub member {ℓ} : {E : Type ℓ} → (E → String) → List E → String → Option E
member value_of [] s = none
member value_of (e ∷ es) s =
    let rest = member value_of es s in if value_of e == s then some e else rest

abbrev pub trigger_types : List TriggerType
trigger_types =
    compliance_violation ∷ security_threat ∷ metric_threshold ∷ escape_attempt ∷ resource_exhaustion
    ∷ audit_failure ∷ manual ∷ []

abbrev pub action_types : List ActionType
action_types =
    isolate_container ∷ freeze_account ∷ revoke_capability ∷ shutdown_sandbox ∷ send_alert
    ∷ popup_notification ∷ scale_up ∷ scale_down ∷ create_ticket ∷ snapshot_evidence ∷ rollback
    ∷ notify_admin ∷ []

abbrev pub risk_levels : List RiskLevel
risk_levels = low ∷ medium ∷ high ∷ critical ∷ []

abbrev pub or_value {ℓ} : {A : Type ℓ} → Option A → A → A
or_value none default = default
or_value (some a) default = a

-- A value of an enumeration that may be missing or empty; the outer option is none where it raises.
abbrev pub optional {ℓ} : {E : Type ℓ} → (String → Option E) → Option String → Option (Option E)
optional read none = some none
optional read (some s) =
    if truthy s then elim (read s) [ none ↦ none | some e ↦ some (some e) ] else some none

unfoldable pub read_action : ActionData → Option Action
read_action a = do
  name ← a.type
  type ← member action_value action_types name
  back ← optional (member action_value action_types) a.rollback_action
  some (record {
    type = type;
    params = or_value a.params [];
    require_approval = or_value a.require_approval false;
    timeout_seconds = or_value a.timeout_seconds 30;
    retry_count = or_value a.retry_count 1;
    rollback_action = back;
  })

unfoldable pub read_actions : List ActionData → Option (List Action)
read_actions [] = some []
read_actions (a ∷ rest) = do
  action ← read_action a
  actions ← read_actions rest
  some (action ∷ actions)

unfoldable pub read_trigger : TriggerData → Option Trigger
read_trigger t = do
  name ← t.type
  type ← member trigger_value trigger_types name
  level ← optional (member risk_value risk_levels) t.risk_level
  some (record {
    type = type;
    event_pattern = or_value t.event_pattern "";
    metric_name = or_value t.metric_name "";
    threshold = or_value t.threshold 0;
    comparison = or_value t.comparison ">";
    risk_level = level;
  })

unfoldable pub read_playbook : ℕ → PlaybookData → Option Playbook
unfolding read_trigger read_actions
read_playbook now d = do
  id ← d.id
  name ← d.name
  t ← d.trigger
  trigger ← read_trigger t
  actions ← read_actions (or_value d.actions [])
  some (record {
    id = id;
    name = name;
    description = or_value d.description "";
    trigger = trigger;
    conditions = or_value d.conditions [];
    actions = actions;
    on_failure = or_value d.on_failure "alert";
    enabled = or_value d.enabled true;
    priority = or_value d.priority 100;
    created_at = now;
    tags = or_value d.tags [];
  })

-- The loop; the count is none where it raises. `clock k` is for the k-th playbook.
unfoldable pub load_playbooks :
    (ℕ → ℕ) → ℕ → PlaybookEngine → List PlaybookData → PlaybookEngine × Option ℕ
unfolding read_playbook
load_playbooks clock k engine [] = (engine, some k)
load_playbooks clock k engine (d ∷ rest) = elim (read_playbook (clock k) d) [
  | none ↦ (engine, none)
  | some p ↦ load_playbooks clock (suc k) (register_playbook engine p) rest
]
