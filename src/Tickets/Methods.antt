-- ===== src/Tickets/Methods.antt =====
-- The methods as moves, method by method.
use photon_kernel_sil.Prelude.{
  ℕ, String, Bool, true, false, ◌≡◌, refl, inl, inr, arith, Option-cases, Bool-cases, string_eq,
}
use photon_kernel_sil.Prelude.Dict.{Dict, get}
use photon_kernel_sil.Tickets.Types.{resolved, reopened, Ticket, System, Clock, later, PostMortem}
use photon_kernel_sil.Tickets.Desk.{add_history, create_from_event}
use photon_kernel_sil.Tickets.Flow.{
  may_close, commented, assigned, started, resolved_by, closed_by, reopened_by, escalated_by,
  with_post_mortem, assign, start_progress, resolve, close, reopen, escalate, add_comment,
  add_post_mortem,
}
use photon_kernel_sil.Tickets.Moves.{
  Extends, Allowed, Move, same, change-Move, notified-Move, change_and_notify-Move, create-Move,
  Alike, Alike-Extends, Extends-trans, add_history-Extends, commented-Extends, commented_if-Extends,
  status-commented_if,
}
use photon_kernel_sil.Tickets.Runs.{
  Operation, creates, receives, assigns, starts, resolves, closes, reopens, escalates, comments,
  reviews, step,
}

-- An update of the fields, an entry of history, and what follows.
logged :
    (now : ℕ) (action author : String) (details : Dict String String) {t u : Ticket}
    → Alike t u
    → Extends t (add_history now action author details u)
logged now action author details {u = u} a =
    Extends-trans (Alike-Extends a) (add_history-Extends now action author details u)

assigned-Allowed :
    (clock : Clock) (uuid assignee comment : String) (t : Ticket)
    → Allowed (assigned clock uuid assignee comment) t
unfolding assigned add_history
assigned-Allowed clock uuid assignee comment t = (
  Extends-trans (logged (clock 1) "assigned" assignee _ (ground arith))
      (commented_if-Extends (later 2 clock) uuid assignee comment _),
  inr (λ e. cc (status-commented_if (later 2 clock) uuid assignee comment _)),
)

started-Allowed :
    (clock : Clock) (uuid comment : String) (t : Ticket) → Allowed (started clock uuid comment) t
unfolding started add_history
started-Allowed clock uuid comment t = (
  Extends-trans (logged (clock 1) "start_progress" _ _ (ground arith))
      (commented_if-Extends (later 2 clock) uuid _ comment _),
  inr (λ e. cc (status-commented_if (later 2 clock) uuid _ comment _)),
)

resolved_by-Allowed :
    (clock : Clock) (uuid resolution resolver : String) (t : Ticket)
    → Allowed (resolved_by clock uuid resolution resolver) t
unfolding resolved_by
resolved_by-Allowed clock uuid resolution resolver t = (
  Extends-trans
      (logged (clock 2) "resolved" _ _
        {u = record t { status = resolved; resolved_at = clock 0; updated_at = clock 1 }}
        (ground arith))
      (commented-Extends (later 3 clock) uuid _ _ false _),
  inr (λ e. cc),
)

closed_by-Allowed :
    (clock : Clock) (closer : String) (t : Ticket)
    → may_close t.status ≡ true
    → Allowed (closed_by clock closer) t
unfolding closed_by
closed_by-Allowed clock closer t allowed =
    (logged (clock 2) "closed" _ _ (ground arith), inr (λ _. allowed))

reopened_by-Allowed :
    (clock : Clock) (uuid reason reopener : String) (t : Ticket)
    → Allowed (reopened_by clock uuid reason reopener) t
unfolding reopened_by
reopened_by-Allowed clock uuid reason reopener t = (
  Extends-trans
      (logged (clock 1) "reopened" _ _
        {u = record t { status = reopened; closed_at = 0; updated_at = clock 0 }} (ground arith))
      (commented-Extends (later 2 clock) uuid _ _ false _),
  inr (λ e. cc),
)

escalated_by-Allowed :
    (clock : Clock) (reason escalator : String) (t : Ticket)
    → Allowed (escalated_by clock reason escalator) t
unfolding escalated_by
escalated_by-Allowed clock reason escalator t =
    (logged (clock 1) "escalated" _ _ (ground arith), inr (λ e. cc))

with_post_mortem-Allowed :
    (clock : Clock) (p : PostMortem) (t : Ticket) → Allowed (with_post_mortem clock p) t
unfolding with_post_mortem
with_post_mortem-Allowed clock p t =
    (logged (clock 2) "post_mortem_added" _ _ (ground arith), inl refl)

commented-Allowed :
    (clock : Clock) (uuid author content : String) (internal : Bool) (t : Ticket)
    → Allowed (commented clock uuid author content internal) t
unfolding commented
commented-Allowed clock uuid author content internal t =
    (commented-Extends clock uuid author content internal t, inl refl)

close-Move : (clock : Clock) (s : System) (id closer : String) → Move s (close clock s id closer).0
unfolding close
close-Move clock s id closer = elim (Option-cases (get s.tickets id)) [
  | inl e ↦ rw (e, close) (same refl refl)
  | inr (t, e) ↦ elim (Bool-cases (may_close t.status)) [
    | inl allowed ↦
        rw (e, close)
          (rw allowed (
            change_and_notify-Move s id (closed_by clock closer) (λ t. "工单已关闭") t e
              (closed_by-Allowed clock closer t allowed)))
    | inr refused ↦ rw (e, close) (rw refused (same refl refl))
  ]
]

-- Every method leaves the tickets alone, changes one as allowed, or adds one under the next number.
pub step-Move : (s : System) (o : Operation) → Move s (step s o)
unfolding step assign start_progress resolve reopen escalate add_comment add_post_mortem
    create_from_event
step-Move s (creates clock title description c p reporter event) =
    create-Move clock s title description c p reporter event
step-Move s (receives clock event) = create-Move clock s _ _ _ _ _ event
step-Move s (assigns clock uuid id assignee comment) =
    notified-Move s id _ _ (assigned-Allowed clock uuid assignee comment)
step-Move s (starts clock uuid id comment) = change-Move s id _ (started-Allowed clock uuid comment)
step-Move s (resolves clock uuid id resolution resolver) =
    notified-Move s id _ _ (resolved_by-Allowed clock uuid resolution resolver)
step-Move s (closes clock id closer) = close-Move clock s id closer
step-Move s (reopens clock uuid id reason reopener) =
    notified-Move s id _ _ (reopened_by-Allowed clock uuid reason reopener)
step-Move s (escalates clock id reason escalator) =
    notified-Move s id _ _ (escalated_by-Allowed clock reason escalator)
step-Move s (comments clock uuid id author content internal) =
    change-Move s id _ (commented-Allowed clock uuid author content internal)
step-Move s (reviews clock id p) = change-Move s id _ (with_post_mortem-Allowed clock p)
