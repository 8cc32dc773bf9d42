-- ===== src/Tickets/Tests.antt =====
-- Runs of the ticket system, and each theorem at an input that meets its hypotheses.
use photon_kernel_sil.Prelude.{
  ℕ, ◌*◌, ◌≤◌, String, true, false, List, [], ◌∷◌, none, some, ◌≡◌, ◌⊎◌, ◌≢◌, ◌==◌, if◌then◌else◌,
  refl, arith, count, string_eq,
}
use photon_kernel_sil.Prelude.Dict.{get, put, values}
use photon_kernel_sil.Prelude.Text.{padded}
use photon_kernel_sil.Tickets.Types.{
  resolved, closed, reopened, p1_critical, system_error, Ticket, System, Clock, init, second,
  Status-discrete,
}
use photon_kernel_sil.Tickets.Desk.{ticket_id, create, new_ticket, notify}
use photon_kernel_sil.Tickets.Flow.{
  may_close, close, closed_by, resolve, resolved_by, change_and_notify,
}
use photon_kernel_sil.Tickets.Reports.{Filters}
use photon_kernel_sil.Tickets.Runs.{Operation, creates, resolves, closes, step, run}
use photon_kernel_sil.Tickets.Moves.{Extends}
use photon_kernel_sil.Tickets.Keys.{IsFiled, run-IsFiled}
use photon_kernel_sil.Tickets.Lifecycle.{run-Extends, step_closing, close_decides}
use photon_kernel_sil.Tickets.Lists.{wanted}

abbrev at : ℕ → Clock
at now _ = now

abbrev id : String
id = "PHOTON-000001"

abbrev first : List Operation
first =
    creates (at (100 * second)) "disk full" "no space left" system_error p1_critical "system" []
    ∷ []

abbrev solved : List Operation
solved = resolves (at (200 * second)) "c1" id "cleaned" "admin" ∷ []

abbrev one_ticket : System
one_ticket = run (init false) first

abbrev ticket : Ticket
unfolding new_ticket ticket_id
ticket =
    new_ticket (at (100 * second)) 1 "disk full" "no space left" system_error p1_critical "system"
      []

abbrev solved_ticket : Ticket
unfolding resolved_by
solved_ticket = resolved_by (at (200 * second)) "c1" "cleaned" "admin" ticket

one_ticket_lem : one_ticket.tickets ≡ (id, ticket) ∷ []
unfolding init run step create notify ticket_id padded put new_ticket
one_ticket_lem = refl

ticket_found : get one_ticket.tickets id ≡ some ticket
unfolding init run step create notify ticket_id padded put get new_ticket
ticket_found = refl

solved_found : get (run one_ticket solved).tickets id ≡ some solved_ticket
unfolding init run step create notify ticket_id padded put get resolve change_and_notify new_ticket
    resolved_by
solved_found = refl

solved_may_close : may_close solved_ticket.status ≡ true
unfolding Status-discrete resolved_by
solved_may_close = refl

run-IsFiled_example : IsFiled (run (init false) first)
run-IsFiled_example = run-IsFiled false first

run-Extends_example :
    (u : Ticket) × (get (run one_ticket solved).tickets id ≡ some u) × Extends ticket u
run-Extends_example = run-Extends one_ticket solved id ticket (run-IsFiled false first) ticket_found

abbrev finish : Operation
finish = closes (at (300 * second)) id ""

abbrev closed_ticket : Ticket
unfolding closed_by
closed_ticket = closed_by (at (300 * second)) "" solved_ticket

closed_found : get (step (run one_ticket solved) finish).tickets id ≡ some closed_ticket
unfolding init run step create notify ticket_id padded put get resolve close change_and_notify
    new_ticket resolved_by closed_by Status-discrete
closed_found = refl

closed_is_closed : closed_ticket.status ≡ closed
unfolding closed_by
closed_is_closed = refl

step_closing_example :
    (solved_ticket.status ≡ closed)
    ⊎ ((solved_ticket.status ≡ resolved) ⊎ (solved_ticket.status ≡ reopened))
step_closing_example =
    step_closing (run one_ticket solved) finish id solved_ticket closed_ticket solved_found
      closed_found closed_is_closed

close_decides_example :
    (((solved_ticket.status ≡ resolved) ⊎ (solved_ticket.status ≡ reopened))
      × ((u : Ticket) × ((close (at 5) (run one_ticket solved) id "root").1 ≡ some u)
          × (u.status ≡ closed)
          × (u.closed_at ≡ 5)
          × ((j : String)
              → get (close (at 5) (run one_ticket solved) id "root").0.tickets j
                ≡ (if id == j then some u else get (run one_ticket solved).tickets j))))
    ⊎ ((solved_ticket.status ≢ resolved)
        × (solved_ticket.status ≢ reopened)
        × (close (at 5) (run one_ticket solved) id "root" ≡ (run one_ticket solved, none)))
close_decides_example =
    close_decides (at 5) (run one_ticket solved) id "root" solved_ticket solved_found

abbrev no_filter : Filters
no_filter = record { status = none; priority = none; category = none; assignee = "" }

few_tickets : count (wanted no_filter) (values one_ticket.tickets) ≤ 50
few_tickets = rw one_ticket_lem (omega arith)
