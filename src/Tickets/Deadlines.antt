-- ===== src/Tickets/Deadlines.antt =====
-- The states of the deadlines over time.
use photon_kernel_sil.Prelude.{ℕ, ◌≤◌, ◌<◌, ◌≡◌, ◌≢◌, ◌↔◌, arith}
use photon_kernel_sil.Tickets.Types.{
  SlaStatus, in_time, warning, breached, Ticket, created, resolved, closed, Status-discrete,
}
use photon_kernel_sil.Tickets.Sla.{sla_clock, get_sla_status}

-- How bad a state is.
abbrev pub badness : SlaStatus → ℕ
badness in_time = 0
badness warning = 1
badness breached = 2

sla_clock_mono :
    (created_at deadline now next : ℕ)
    → now ≤ next
    → badness (sla_clock created_at deadline now) ≤ badness (sla_clock created_at deadline next)
unfolding sla_clock
sla_clock_mono created_at deadline now next h = ground arith

-- While a ticket is not changed, time only makes the states of its two deadlines worse.
pub sla_mono :
    (now next : ℕ) (t : Ticket)
    → now ≤ next
    → (badness (get_sla_status now t).response ≤ badness (get_sla_status next t).response)
      × (badness (get_sla_status now t).resolve ≤ badness (get_sla_status next t).resolve)
unfolding get_sla_status
sla_mono now next t h = ground (
  arith,
  sla_clock_mono t.created_at t.sla_response_deadline now next,
  sla_clock_mono t.created_at t.sla_resolve_deadline now next,
)

-- The response is overdue exactly on a ticket that nobody has taken up, after its deadline; the
-- solution is overdue exactly on a ticket neither resolved nor closed, after its deadline.
pub breached_iff :
    (now : ℕ) (t : Ticket)
    → (((get_sla_status now t).response ≡ breached)
        ↔ ((t.status ≡ created) × (t.sla_response_deadline < now)))
      × (((get_sla_status now t).resolve ≡ breached)
          ↔ ((t.status ≢ resolved) × (t.status ≢ closed) × (t.sla_resolve_deadline < now)))
unfolding get_sla_status Status-discrete
breached_iff now t =
    ((λ h. ground arith, λ h. ground arith), (λ h. ground arith, λ h. ground arith))
