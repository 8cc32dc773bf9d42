-- ===== src/Tickets/Reports.antt =====
-- ops/ticket_system.py: `list_tickets` and `get_stats`.
use photon_kernel_sil.Prelude.{
  ℕ, ◌+◌, String, Bool, true, false, not, ◌&&◌, ◌||◌, List, [], ◌∷◌, Option, none, some, ltb, leb,
  Eq, ◌==◌, string_eq, keep, count, any, take, length, map, if◌then◌else◌,
}
use photon_kernel_sil.Prelude.Dict.{Dict, values}
use photon_kernel_sil.Prelude.Text.{truthy}
use photon_kernel_sil.Tickets.Types.{
  Status, created, triaged, in_progress, resolved, closed, escalated, reopened, Priority,
  p1_critical, p2_high, p3_medium, p4_low, Category, security_threat, compliance_violation,
  escape_attempt, resource_exhaustion, system_error, performance_degradation, audit_failure,
  network_issue, other, breached, Ticket, System, Clock, later, status_eq, priority_eq, category_eq,
  sla_eq,
}
use photon_kernel_sil.Tickets.Sla.{get_sla_status}

-- A filter that is not given lets every ticket pass.
abbrev pub passes {ℓ} : {A : Type ℓ} ⦃e : Eq A⦄ → Option A → A → Bool
passes none a = true
passes (some wanted) a = a == wanted

pub record Filters : Type 0 where
  pub status : Option Status
  pub priority : Option Priority
  pub category : Option Category
  pub assignee : String

-- `tickets.sort(key=created_at, reverse=True)` is stable: of two tickets of one time the earlier in
-- the dict stays first.
unfoldable pub insert_newest : Ticket → List Ticket → List Ticket
insert_newest t [] = t ∷ []
insert_newest t (u ∷ us) =
    let rest = insert_newest t us in if leb u.created_at t.created_at then t ∷ u ∷ us else u ∷ rest

unfoldable pub newest_first : List Ticket → List Ticket
newest_first [] = []
newest_first (t ∷ ts) = insert_newest t (newest_first ts)

-- The four filters of `list_tickets`, one after the other.
unfoldable pub matching : Filters → List Ticket → List Ticket
matching f ts =
    keep (λ t. not (truthy f.assignee) || t.assignee == f.assignee)
      (keep (λ t. passes f.category t.category)
        (keep (λ t. passes f.priority t.priority) (keep (λ t. passes f.status t.status) ts)))

unfoldable pub list_tickets : System → Filters → ℕ → List Ticket
unfolding newest_first insert_newest matching
list_tickets s f limit = take limit (newest_first (matching f (values s.tickets)))

abbrev pub statuses : List Status
statuses = created ∷ triaged ∷ in_progress ∷ resolved ∷ closed ∷ escalated ∷ reopened ∷ []

abbrev pub priorities : List Priority
priorities = p1_critical ∷ p2_high ∷ p3_medium ∷ p4_low ∷ []

abbrev pub categories : List Category
categories =
    security_threat ∷ compliance_violation ∷ escape_attempt ∷ resource_exhaustion ∷ system_error
    ∷ performance_degradation ∷ audit_failure ∷ network_issue ∷ other ∷ []

-- For each key in order, its count, if it is not 0.
unfoldable pub count_each {ℓ κ} :
    {A : Type ℓ} {K : Type κ} ⦃e : Eq K⦄ → (A → K) → List A → List K → Dict K ℕ
count_each key xs [] = []
count_each key xs (k ∷ ks) =
    let n = count (λ x. key x == k) xs in
    let rest = count_each key xs ks in if ltb 0 n then (k, n) ∷ rest else rest

-- The different assignees that are not empty. The source has them in a set, whose order is its own.
unfoldable pub assignees : List Ticket → List String
assignees [] = []
assignees (t ∷ ts) =
    let rest = assignees ts in
    if truthy t.assignee && not (any (λ a. a == t.assignee) rest) then t.assignee ∷ rest else rest

-- Each ticket reads the clock once.
unfoldable pub count_breached : Clock → List Ticket → ℕ
count_breached clock [] = 0
count_breached clock (t ∷ ts) =
    let rest = count_breached (later 1 clock) ts in
    let sla = get_sla_status (clock 0) t in
    if sla.response == breached || sla.resolve == breached then rest + 1 else rest

abbrev has_post_mortem : Ticket → Bool
has_post_mortem t = elim t.post_mortem [ none ↦ false | some p ↦ true ]

sum_of : (Ticket → ℕ) → List Ticket → ℕ
sum_of f [] = 0
sum_of f (t ∷ ts) = f t + sum_of f ts

-- The average of `resolved_at - created_at` is given by its parts: the sum of the times of
-- resolution, the sum of the times of creation and the number of tickets.
pub record Stats : Type 0 where
  pub total : ℕ
  pub by_status : Dict Status ℕ
  pub by_priority : Dict Priority ℕ
  pub by_category : Dict Category ℕ
  pub by_assignee : Dict String ℕ
  pub sla_breached : ℕ
  pub escalated_count : ℕ
  pub post_mortem_count : ℕ
  pub resolved_sum : ℕ
  pub created_sum : ℕ
  pub resolved_count : ℕ

unfoldable pub get_stats : Clock → System → Stats
unfolding sum_of
get_stats clock s =
    let ts = values s.tickets in
    let done = keep (λ t. ltb 0 t.resolved_at) ts in
    record {
      total = length ts;
      by_status = count_each (λ (t : Ticket). t.status) ts statuses;
      by_priority = count_each (λ (t : Ticket). t.priority) ts priorities;
      by_category = count_each (λ (t : Ticket). t.category) ts categories;
      by_assignee = map (λ a. (a, count (λ (t : Ticket). t.assignee == a) ts)) (assignees ts);
      sla_breached = count_breached clock ts;
      escalated_count = count (λ (t : Ticket). ltb 0 t.escalation_count) ts;
      post_mortem_count = count has_post_mortem ts;
      resolved_sum = sum_of (λ t. t.resolved_at) done;
      created_sum = sum_of (λ t. t.created_at) done;
      resolved_count = length done;
    }
