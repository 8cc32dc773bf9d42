-- ===== src/Tickets/Desk.antt =====
-- ops/ticket_system.py: creating a ticket, by hand or from an event, and what every method uses.
-- A method returns the new system beside its result. The tickets are shared objects in the source;
-- a method changes the one under its key, and here stores it again.
use photon_kernel_sil.Prelude.{
  ℕ, ◌+◌, ◌*◌, String, ◌||◌, List, [], ◌∷◌, ◌++◌, Option, none, ◌==◌, string_eq, if◌then◌else◌,
}
use photon_kernel_sil.Prelude.Dict.{Dict, get, get_or, put}
use photon_kernel_sil.Prelude.Text.{padded, text_append}
use photon_kernel_sil.Tickets.Types.{
  Priority, p3_medium, Category, other, created, Ticket, System, Clock, second, sla_response,
  sla_resolve, priority_value, category_value, event_category_map, risk_priority_map,
}

-- f"PHOTON-{n:06d}"
unfoldable pub ticket_id : ℕ → String
ticket_id n = text_append "PHOTON-" (padded 6 n)

-- `_add_history`
unfoldable pub add_history : ℕ → String → String → Dict String String → Ticket → Ticket
add_history now action author details t = record t {
  history =
      t.history
      ++ record { timestamp = now; action = action; author = author; details = details } ∷ [];
}

-- `_notify`
unfoldable pub notify : Ticket → String → System → System
notify t message s =
    if s.notification_callback
    then record s { sent = s.sent ++ record { ticket = t; message = message } ∷ [] }
    else s

-- The ticket of `create`, with its first entry of history.
unfoldable pub new_ticket :
    Clock → ℕ → String → String → Category → Priority → String → Dict String String → Ticket
unfolding add_history
new_ticket clock n title description category priority reporter source_event =
    add_history (clock 1) "created" reporter (("priority", priority_value priority) ∷ []) (record {
      id = ticket_id n;
      title = title;
      description = description;
      category = category;
      priority = priority;
      status = created;
      assignee = "";
      reporter = reporter;
      created_at = clock 0;
      updated_at = clock 0;
      resolved_at = 0;
      closed_at = 0;
      sla_response_deadline = clock 0 + sla_response priority * second;
      sla_resolve_deadline = clock 0 + sla_resolve priority * second;
      comments = [];
      history = [];
      tags = [];
      related_tickets = [];
      source_event = source_event;
      post_mortem = none;
      escalation_count = 0;
      custom_fields = [];
    })

unfoldable pub create :
    Clock
    → System
    → String
    → String
    → Category
    → Priority
    → String
    → Dict String String
    → System × Ticket
create clock s title description category priority reporter source_event =
    let n = s.auto_increment + 1 in
    let t = new_ticket clock n title description category priority reporter source_event in
    (notify t "工单已创建" (record s { auto_increment = n; tickets = put s.tickets (ticket_id n) t }), t)

-- The lines of the event's own fields.
description_lines : Dict String String → List String
description_lines [] = []
description_lines ((k, v) ∷ event) =
    let rest = description_lines event in
    if k == "type" || k == "risk_level"
    then rest
    else text_append "  - " (text_append k (text_append ": " v)) ∷ rest

-- `"\n".join(lines)`
join_lines : List String → String
join_lines [] = ""
join_lines (l ∷ []) = l
join_lines (l ∷ m ∷ ls) = text_append l (text_append "\n" (join_lines (m ∷ ls)))

unfoldable pub generate_description : Dict String String → String
unfolding description_lines join_lines
generate_description event = join_lines (
    "自动创建工单（来自沙盒事件）"
    ∷ ""
    ∷ "事件详情："
    ∷ (description_lines event
        ++ ""
          ∷ text_append "事件类型: " (get_or event "type" "unknown")
          ∷ text_append "风险等级: " (get_or event "risk_level" "unknown")
          ∷ []))

abbrev pub event_category : Dict String String → Category
event_category event = get_or event_category_map (get_or event "type" "other") other

abbrev pub event_priority : Dict String String → Priority
event_priority event = get_or risk_priority_map (get_or event "risk_level" "medium") p3_medium

-- f"[{category.value}] {event_type} - {event.get('container_id', 'unknown')}"
unfoldable pub event_title : Dict String String → String
event_title event = text_append "[" (
    text_append (category_value (event_category event)) (
      text_append "] " (
        text_append (get_or event "type" "other")
          (text_append " - " (get_or event "container_id" "unknown")))))

unfoldable pub create_from_event : Clock → System → Dict String String → System × Ticket
create_from_event clock s event =
    create clock s (event_title event) (generate_description event) (event_category event)
      (event_priority event) "system-auto" event

unfoldable pub get_ticket : System → String → Option Ticket
get_ticket s id = get s.tickets id
