-- ===== src/Tickets/Sla.antt =====
-- ops/ticket_system.py: `get_sla_status`. A warning is given under a fifth of the time; the source
-- multiplies by the float 0.2, and here both sides are multiplied by 5.
use photon_kernel_sil.Prelude.{ℕ, ◌-◌, ◌*◌, ◌&&◌, ◌||◌, ltb, ◌==◌, if◌then◌else◌}
use photon_kernel_sil.Tickets.Types.{
  created, resolved, closed, SlaStatus, in_time, warning, breached, Ticket, status_eq,
}

pub record SlaReport : Type 0 where
  pub response : SlaStatus
  pub resolve : SlaStatus

-- One clock: past the deadline, under a fifth of the time, or neither.
unfoldable pub sla_clock : ℕ → ℕ → ℕ → SlaStatus
sla_clock created_at deadline now =
    if ltb deadline now
    then breached
    else (let remaining = deadline - now in
        let total = deadline - created_at in
        if ltb 0 total && ltb (remaining * 5) total then warning else in_time)

unfoldable pub get_sla_status : ℕ → Ticket → SlaReport
unfolding sla_clock
get_sla_status now t = record {
  response =
      if t.status == created then sla_clock t.created_at t.sla_response_deadline now else in_time;
  resolve =
      if t.status == resolved || t.status == closed
      then in_time
      else sla_clock t.created_at t.sla_resolve_deadline now;
}
