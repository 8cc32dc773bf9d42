-- ===== src/Tickets/Flow.antt =====
-- ops/ticket_system.py: the methods that move a ticket through its life cycle.
-- `uuid` is the comment id that `uuid.uuid4` gives in the call.
use photon_kernel_sil.Prelude.{
  ◌+◌, String, Bool, false, ◌||◌, [], ◌∷◌, ◌++◌, Option, none, some, ◌==◌, string_eq, if◌then◌else◌,
}
use photon_kernel_sil.Prelude.Dict.{get, put}
use photon_kernel_sil.Prelude.Text.{truthy, or_else, decimal, text_append}
use mathlib.Core.Option
use photon_kernel_sil.Tickets.Types.{
  Comment, Status, triaged, in_progress, resolved, closed, escalated, reopened, Comment, PostMortem,
  Ticket, System, Clock, later, status_eq,
}
use photon_kernel_sil.Tickets.Desk.{add_history, notify}

unfoldable pub new_comment : Clock → String → String → String → Bool → Comment
new_comment clock uuid author content internal = record {
  id = uuid;
  author = author;
  content = content;
  created_at = clock 0;
  attachments = [];
  internal = internal;
}

-- What `add_comment` does to its ticket.
unfoldable pub commented : Clock → String → String → String → Bool → Ticket → Ticket
unfolding new_comment
commented clock uuid author content internal t = record t {
  comments = t.comments ++ new_comment clock uuid author content internal ∷ [];
  updated_at = clock 1;
}

-- A comment that is made only if it has content.
unfoldable pub commented_if : Clock → String → String → String → Ticket → Ticket
unfolding commented
commented_if clock uuid author content t =
    if truthy content then commented clock uuid author content false t else t

unfoldable pub assigned : Clock → String → String → String → Ticket → Ticket
unfolding add_history commented_if
assigned clock uuid assignee comment t = commented_if (later 2 clock) uuid assignee comment (
    add_history (clock 1) "assigned" assignee (("from", t.assignee) ∷ ("to", assignee) ∷ [])
      (record t { assignee = assignee; status = triaged; updated_at = clock 0 }))

unfoldable pub started : Clock → String → String → Ticket → Ticket
unfolding add_history commented_if
started clock uuid comment t =
    commented_if (later 2 clock) uuid (or_else t.assignee "system") comment (
      add_history (clock 1) "start_progress" (or_else t.assignee "system") []
        (record t { status = in_progress; updated_at = clock 0 }))

-- `resolve` reads the clock for `resolved_at` and again for `updated_at`.
unfoldable pub resolved_by : Clock → String → String → String → Ticket → Ticket
unfolding add_history commented
resolved_by clock uuid resolution resolver t =
    commented (later 3 clock) uuid (or_else resolver t.assignee) (text_append "解决方案: " resolution)
      false
      (add_history (clock 2) "resolved" (or_else resolver t.assignee)
        (("resolution", resolution) ∷ [])
        (record t { status = resolved; resolved_at = clock 0; updated_at = clock 1 }))

unfoldable pub closed_by : Clock → String → Ticket → Ticket
unfolding add_history
closed_by clock closer t =
    add_history (clock 2) "closed" (or_else closer t.assignee) []
      (record t { status = closed; closed_at = clock 0; updated_at = clock 1 })

unfoldable pub reopened_by : Clock → String → String → String → Ticket → Ticket
unfolding add_history commented
reopened_by clock uuid reason reopener t =
    commented (later 2 clock) uuid (or_else reopener "system") (text_append "重开原因: " reason) false (
      add_history (clock 1) "reopened" (or_else reopener "system") (("reason", reason) ∷ [])
        (record t { status = reopened; closed_at = 0; updated_at = clock 0 }))

unfoldable pub escalated_by : Clock → String → String → Ticket → Ticket
unfolding add_history
escalated_by clock reason escalator t =
    add_history (clock 1) "escalated" (or_else escalator "system")
      (("reason", reason) ∷ ("count", decimal (t.escalation_count + 1)) ∷ [])
      (record t {
        status = escalated;
        escalation_count = t.escalation_count + 1;
        updated_at = clock 0;
      })

unfoldable pub with_post_mortem : Clock → PostMortem → Ticket → Ticket
unfolding add_history
with_post_mortem clock p t =
    add_history (clock 2) "post_mortem_added" (or_else p.author "system")
      (("root_cause", p.root_cause) ∷ [])
      (record t { post_mortem = some (record p { completed_at = clock 0 }); updated_at = clock 1 })

-- A method on one ticket: nothing where the key is not there, else the ticket is changed in place.
unfoldable pub change : System → String → (Ticket → Ticket) → System × Option Ticket
change s id f = elim (get s.tickets id) [
  | none ↦ (s, none)
  | some t ↦ (record s { tickets = put s.tickets id (f t) }, some (f t))
]

-- The same, with a notification at the end.
unfoldable pub change_and_notify :
    System → String → (Ticket → Ticket) → (Ticket → String) → System × Option Ticket
unfolding notify
change_and_notify s id f message = elim (get s.tickets id) [
  | none ↦ (s, none)
  | some t ↦
      (notify (f t) (message (f t)) (record s { tickets = put s.tickets id (f t) }), some (f t))
]

unfoldable pub assign : Clock → String → System → String → String → String → System × Option Ticket
assign clock uuid s id assignee comment =
    change_and_notify s id (assigned clock uuid assignee comment)
      (λ t. text_append "工单已指派给 " assignee)

unfoldable pub start_progress : Clock → String → System → String → String → System × Option Ticket
start_progress clock uuid s id comment = change s id (started clock uuid comment)

unfoldable pub resolve : Clock → String → System → String → String → String → System × Option Ticket
resolve clock uuid s id resolution resolver =
    change_and_notify s id (resolved_by clock uuid resolution resolver) (λ t. "工单已解决")

-- `ticket.status != RESOLVED and ticket.status != REOPENED` refuses.
abbrev pub may_close : Status → Bool
may_close status = status == resolved || status == reopened

unfoldable pub close : Clock → System → String → String → System × Option Ticket
close clock s id closer = elim (get s.tickets id) [
  | none ↦ (s, none)
  | some t ↦
      if may_close t.status
      then change_and_notify s id (closed_by clock closer) (λ t. "工单已关闭")
      else (s, none)
]

unfoldable pub reopen : Clock → String → System → String → String → String → System × Option Ticket
reopen clock uuid s id reason reopener =
    change_and_notify s id (reopened_by clock uuid reason reopener) (λ t. "工单已重开")

unfoldable pub escalate : Clock → System → String → String → String → System × Option Ticket
escalate clock s id reason escalator =
    change_and_notify s id (escalated_by clock reason escalator) (λ t.
      text_append "工单已升级（第" (text_append (decimal t.escalation_count) (text_append "次）: " reason)))

unfoldable pub add_comment :
    Clock → String → System → String → String → String → Bool → System × Option Comment
add_comment clock uuid s id author content internal =
    let (s', changed) = change s id (commented clock uuid author content internal) in
    (s', Option.map (λ t. new_comment clock uuid author content internal) changed)

unfoldable pub add_post_mortem : Clock → System → String → PostMortem → System × Option Ticket
add_post_mortem clock s id p = change s id (with_post_mortem clock p)
