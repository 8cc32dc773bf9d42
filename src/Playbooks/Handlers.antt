-- ===== src/Playbooks/Handlers.antt =====
-- ops/playbook_engine.py: the handlers that an engine has from the start. Their outputs are texts.
use photon_kernel_sil.Prelude.{String, [], ◌∷◌, string_eq}
use photon_kernel_sil.Prelude.Dict.{Dict, get_or}
use photon_kernel_sil.Prelude.Text.{text_append}
use photon_kernel_sil.Playbooks.Types.{
  ActionType, action_type_eq, isolate_container, freeze_account, revoke_capability,
  shutdown_sandbox, send_alert, popup_notification, scale_up, scale_down, create_ticket,
  snapshot_evidence, rollback, notify_admin, returned, Handler, PlaybookEngine,
}

-- A flag, and one parameter under its name
abbrev pub reports : String → String → String → String → Handler
reports flag name param default uuid params event =
    returned ((flag, "True") ∷ (name, get_or params param default) ∷ [])

abbrev pub alert_handler : Handler
alert_handler = reports "alert_sent" "channel" "channel" "default"

abbrev pub popup_handler : Handler
popup_handler = reports "popup_shown" "message" "message" "安全告警"

abbrev pub notify_handler : Handler
notify_handler = reports "admin_notified" "admin" "admin" "security-team"

-- The digits of a ticket are in upper case: `uuid` has them so.
abbrev pub ticket_handler : Handler
ticket_handler uuid params event = returned (
    ("ticket_created", "True")
    ∷ ("ticket_id", text_append "TICKET-" uuid)
    ∷ ("priority", get_or params "priority" "high")
    ∷ [])

abbrev pub snapshot_handler : Handler
snapshot_handler uuid params event = returned (
    ("snapshot_created", "True")
    ∷ ("snapshot_id", text_append "SNAP-" uuid)
    ∷ ("evidence_type", get_or params "type" "full")
    ∷ [])

abbrev pub isolate_handler : Handler
isolate_handler = reports "isolated" "container_id" "container_id" "unknown"

abbrev pub freeze_handler : Handler
freeze_handler = reports "frozen" "tenant_id" "tenant_id" "unknown"

abbrev pub revoke_handler : Handler
revoke_handler = reports "revoked" "capability" "capability" "unknown"

abbrev pub shutdown_handler : Handler
shutdown_handler = reports "shutdown" "sandbox_id" "sandbox_id" "unknown"

abbrev pub scale_handler : Handler
scale_handler = reports "scaled" "replicas" "replicas" "0"

abbrev pub rollback_handler : Handler
rollback_handler = reports "rolled_back" "version" "version" "previous"

-- `_register_default_handlers`
abbrev pub default_handlers : Dict ActionType Handler
default_handlers =
    (send_alert, alert_handler)
    ∷ (popup_notification, popup_handler)
    ∷ (notify_admin, notify_handler)
    ∷ (create_ticket, ticket_handler)
    ∷ (snapshot_evidence, snapshot_handler)
    ∷ (isolate_container, isolate_handler)
    ∷ (freeze_account, freeze_handler)
    ∷ (revoke_capability, revoke_handler)
    ∷ (shutdown_sandbox, shutdown_handler)
    ∷ (scale_up, scale_handler)
    ∷ (scale_down, scale_handler)
    ∷ (rollback, rollback_handler)
    ∷ []

-- `PlaybookEngine()`
abbrev pub new_engine : PlaybookEngine
new_engine = record {
  playbooks = [];
  action_handlers = default_handlers;
  executions = [];
  pending_approvals = [];
}
