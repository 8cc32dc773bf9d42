-- ===== src/Tickets/Lists.antt =====
-- What `list_tickets` and `get_stats` report.
use photon_kernel_sil.Prelude.{
  ℕ, zero, suc, min, ap, ◌∙◌, string_eq, All-mono, leb→le, leb→lt, length-take, take_all,
  count-keep, ◌+◌, ◌≤◌, Bool, true, not, ◌&&◌, ◌||◌, List, [], ◌∷◌, ◌≡◌, refl, arith, All, All-take,
  length, take, keep, count, leb, Eq, ◌==◌, Bool-cases, inl, inr,
}
use photon_kernel_sil.Prelude.Text.{truthy}
use native.Mathlib.Nat.{le_trans}
use photon_kernel_sil.Prelude.Dict.{Dict, values}
use photon_kernel_sil.Tickets.Types.{
  Status, Priority, Category, Ticket, System, Clock, Status-discrete, Priority-discrete,
  Category-discrete, status_eq, priority_eq, category_eq,
}
use photon_kernel_sil.Tickets.Reports.{
  Filters, passes, insert_newest, newest_first, matching, list_tickets, count_each, statuses,
  priorities, categories, get_stats,
}

-- The newest tickets come first.
abbrev pub Newest : List Ticket → Type 0
Newest [] = Unit
Newest (t ∷ ts) = All (λ u. u.created_at ≤ t.created_at) ts × Newest ts

All-insert_newest :
    (P : Ticket → Type 0) (t : Ticket) (ts : List Ticket)
    → P t
    → All P ts
    → All P (insert_newest t ts)
unfolding insert_newest
All-insert_newest P t [] p h = (p, tt)
All-insert_newest P t (u ∷ us) p h = elim (Bool-cases (leb u.created_at t.created_at)) [
  | inl e ↦ rw e (p, h)
  | inr e ↦ rw e (h.0, All-insert_newest P t us p h.1)
]

insert_newest-Newest : (t : Ticket) (ts : List Ticket) → Newest ts → Newest (insert_newest t ts)
unfolding insert_newest
insert_newest-Newest t [] h = (tt, tt)
insert_newest-Newest t (u ∷ us) h = elim (Bool-cases (leb u.created_at t.created_at)) [
  | inl e ↦ rw e (
    (leb→le _ _ e, All-mono _ _ (λ v k. le_trans k (leb→le u.created_at t.created_at e)) us h.0),
    h,
  )
  | inr e ↦ rw e (
    All-insert_newest (λ v. v.created_at ≤ u.created_at) t us (omega (arith, leb→lt _ _ e)) h.0,
    insert_newest-Newest t us h.1,
  )
]

newest_first-Newest : (ts : List Ticket) → Newest (newest_first ts)
unfolding newest_first
newest_first-Newest [] = tt
newest_first-Newest (t ∷ ts) = insert_newest-Newest t (newest_first ts) (newest_first-Newest ts)

take-Newest : (n : ℕ) (ts : List Ticket) → Newest ts → Newest (take n ts)
take-Newest zero ts h = tt
take-Newest (suc n) [] h = tt
take-Newest (suc n) (t ∷ ts) h = (All-take _ n ts h.0, take-Newest n ts h.1)

count-insert_newest :
    (p : Ticket → Bool) (t : Ticket) (ts : List Ticket)
    → count p (insert_newest t ts) ≡ count p (t ∷ ts)
unfolding insert_newest
count-insert_newest p t [] = refl
count-insert_newest p t (u ∷ us) = ground (arith, count-insert_newest p t us)

count-newest_first : (p : Ticket → Bool) (ts : List Ticket) → count p (newest_first ts) ≡ count p ts
unfolding newest_first
count-newest_first p [] = refl
count-newest_first p (t ∷ ts) =
    ground (arith, count-insert_newest p t (newest_first ts), count-newest_first p ts)

All-newest_first : (P : Ticket → Type 0) (ts : List Ticket) → All P ts → All P (newest_first ts)
unfolding newest_first
All-newest_first P [] h = tt
All-newest_first P (t ∷ ts) h =
    All-insert_newest P t (newest_first ts) h.0 (All-newest_first P ts h.1)

-- The ticket passes the four filters.
abbrev pub wanted : Filters → Ticket → Bool
wanted f t =
    ((passes f.status t.status && passes f.priority t.priority) && passes f.category t.category)
    && (not (truthy f.assignee) || t.assignee == f.assignee)

keep-keep :
    (p q : Ticket → Bool) (ts : List Ticket) → keep q (keep p ts) ≡ keep (λ t. p t && q t) ts
keep-keep p q [] = refl
keep-keep p q (t ∷ ts) = ground (arith, keep-keep p q ts)

matching-eq-keep : (f : Filters) (ts : List Ticket) → matching f ts ≡ keep (wanted f) ts
unfolding matching
matching-eq-keep f ts =
    rw (keep-keep (λ t. passes f.status t.status) (λ t. passes f.priority t.priority) ts) (
      rw
        (keep-keep (λ t. passes f.status t.status && passes f.priority t.priority)
          (λ t. passes f.category t.category) ts)
        (keep-keep
          (λ t.
            (passes f.status t.status && passes f.priority t.priority)
            && passes f.category t.category)
          (λ t. not (truthy f.assignee) || t.assignee == f.assignee) ts))

keep-All : (p : Ticket → Bool) (ts : List Ticket) → All (λ t. p t ≡ true) (keep p ts)
keep-All p [] = tt
keep-All p (t ∷ ts) = elim (Bool-cases (p t)) [
  | inl e ↦ rw e (e, keep-All p ts)
  | inr e ↦ rw e (keep-All p ts)
]

length-keep : (p : Ticket → Bool) (ts : List Ticket) → length (keep p ts) ≡ count p ts
length-keep p [] = refl
length-keep p (t ∷ ts) = ground (arith, length-keep p ts)

length-insert_newest : (t : Ticket) (ts : List Ticket) → length (insert_newest t ts) ≡ length ts + 1
unfolding insert_newest
length-insert_newest t [] = omega arith
length-insert_newest t (u ∷ us) = ground (arith, length-insert_newest t us)

length-newest_first : (ts : List Ticket) → length (newest_first ts) ≡ length ts
unfolding newest_first
length-newest_first [] = refl
length-newest_first (t ∷ ts) =
    omega (arith, length-insert_newest t (newest_first ts), length-newest_first ts)

length-list_tickets :
    (s : System) (f : Filters) (limit : ℕ)
    → length (list_tickets s f limit) ≡ min limit (count (wanted f) (values s.tickets))
unfolding list_tickets
length-list_tickets s f limit = omega (
  arith,
  length-take limit (newest_first (matching f (values s.tickets))),
  length-newest_first (matching f (values s.tickets)),
  ap length (matching-eq-keep f (values s.tickets)),
  length-keep (wanted f) (values s.tickets),
)

-- `list_tickets` gives tickets that pass the filters, newest first, and as many of those in the
-- system as the limit allows.
pub list_tickets_lem :
    (s : System) (f : Filters) (limit : ℕ)
    → Newest (list_tickets s f limit)
      × All (λ t. wanted f t ≡ true) (list_tickets s f limit)
      × (length (list_tickets s f limit) ≡ min limit (count (wanted f) (values s.tickets)))
unfolding list_tickets
list_tickets_lem s f limit = (
  take-Newest limit _ (newest_first-Newest (matching f (values s.tickets))),
  All-take _ limit _ (
      All-newest_first (λ t. wanted f t ≡ true) (matching f (values s.tickets))
        (rw (matching-eq-keep f (values s.tickets)) (keep-All (wanted f) (values s.tickets)))),
  length-list_tickets s f limit,
)

-- `list_tickets` without a limit that cuts, seen as counts: each kind of ticket is listed as often
-- as it is in the system among those that pass the filters.
pub count-list_tickets :
    (s : System) (f : Filters) (limit : ℕ) (p : Ticket → Bool)
    → count (wanted f) (values s.tickets) ≤ limit
    → count p (list_tickets s f limit) ≡ count (λ t. wanted f t && p t) (values s.tickets)
unfolding list_tickets
count-list_tickets s f limit p h =
    ap (count p) (
      take_all limit (newest_first (matching f (values s.tickets))) (
        omega (
          arith,
          length-newest_first (matching f (values s.tickets)),
          ap length (matching-eq-keep f (values s.tickets)),
          length-keep (wanted f) (values s.tickets),
        )))
    ∙ count-newest_first p (matching f (values s.tickets))
    ∙ ap (count p) (matching-eq-keep f (values s.tickets))
    ∙ count-keep (wanted f) p (values s.tickets)

-- The counts of a report add up.
abbrev pub total_of {ℓ} : {K : Type ℓ} → Dict K ℕ → ℕ
total_of [] = 0
total_of ((k, n) ∷ d) = n + total_of d

total_of-count_each {ℓ} :
    {K : Type ℓ} ⦃e : Eq K⦄ (key : Ticket → K) (t : Ticket) (ts : List Ticket) (ks : List K)
    → total_of (count_each key (t ∷ ts) ks)
      ≡ count (λ k. key t == k) ks + total_of (count_each key ts ks)
unfolding count_each
total_of-count_each key t ts [] = refl
total_of-count_each key t ts (k ∷ ks) = ground (arith, total_of-count_each key t ts ks)

total_of-none {ℓ} :
    {K : Type ℓ} ⦃e : Eq K⦄ (key : Ticket → K) (ks : List K) → total_of (count_each key [] ks) ≡ 0
unfolding count_each
total_of-none key [] = refl
total_of-none key (k ∷ ks) = ground (arith, total_of-none key ks)

module _ {ℓ} {K : Type ℓ} ⦃e : Eq K⦄ (key : Ticket → K) (ks : List K)
    (once : (k : K) → count (λ j. k == j) ks ≡ 1) where
  total_of_all : (ts : List Ticket) → total_of (count_each key ts ks) ≡ length ts
  total_of_all [] = total_of-none key ks
  total_of_all (t ∷ ts) =
      omega (arith, total_of-count_each key t ts ks, total_of_all ts, once (key t))

status_once : (a : Status) → count (λ b. a == b) statuses ≡ 1
unfolding Status-discrete
status_once a = ground arith

priority_once : (a : Priority) → count (λ b. a == b) priorities ≡ 1
unfolding Priority-discrete
priority_once a = ground arith

category_once : (a : Category) → count (λ b. a == b) categories ≡ 1
unfolding Category-discrete
category_once a = ground arith

-- In the statistics the counts by status, by priority and by category each add up to the number of
-- tickets.
pub stats_total :
    (clock : Clock) (s : System)
    → (total_of (get_stats clock s).by_status ≡ (get_stats clock s).total)
      × (total_of (get_stats clock s).by_priority ≡ (get_stats clock s).total)
      × (total_of (get_stats clock s).by_category ≡ (get_stats clock s).total)
unfolding get_stats
stats_total clock s = (
  total_of_all (λ t. t.status) statuses status_once (values s.tickets),
  total_of_all (λ t. t.priority) priorities priority_once (values s.tickets),
  total_of_all (λ t. t.category) categories category_once (values s.tickets),
)
