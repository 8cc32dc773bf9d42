-- ===== src/Tickets/Lifecycle.antt =====
-- The life cycle of one ticket across the methods.
use photon_kernel_sil.Prelude.{
  ◌+◌, ==_iff, String, true, false, ◌≢◌, List, [], ◌∷◌, ◌≡◌, ◌⊎◌, inl, inr, none, some, refl, ap,
  sym, ◌∙◌, subst, arith, ◌==◌, string_eq, Bool-cases, if◌then◌else◌,
}
use photon_kernel_sil.Prelude.Dict.{Dict, get, put, get-put}
use photon_kernel_sil.Tickets.Types.{
  Status, resolved, closed, reopened, Ticket, System, Clock, Status-discrete,
}
use photon_kernel_sil.Tickets.Desk.{ticket_id}
use photon_kernel_sil.Tickets.Flow.{may_close, close, closed_by, change_and_notify}
use photon_kernel_sil.Tickets.Runs.{Operation, step, run}
use photon_kernel_sil.Tickets.Moves.{
  Extends, Extends-trans, Move, tickets-notify, same, changed, added, Alike-Extends,
}
use photon_kernel_sil.Tickets.Methods.{step-Move}
use photon_kernel_sil.Tickets.Keys.{IsFiled, get-next, Move-IsFiled}

Extends-refl : (t : Ticket) → Extends t t
Extends-refl t = Alike-Extends (ground arith)

-- The ticket that an id finds after a move.
abbrev Grown : System → String → Ticket → Type 0
Grown s id t = (u : Ticket) × (get s.tickets id ≡ some u) × Extends t u

put-Grown :
    (d : Dict String Ticket) (s : System) (key id : String) (t u : Ticket)
    → s.tickets ≡ put d key u
    → get d id ≡ some t
    → (key ≡ id → Extends t u)
    → Grown s id t
put-Grown d s key id t u e g x = elim (Bool-cases (key == id)) [
  | inl hit ↦ (u, rw e (ground (arith, get-put d key id u)), x ((==_iff key id).0 hit))
  | inr miss ↦ (t, rw e (ground (arith, get-put d key id u)), Extends-refl t)
]

Move-Grown :
    {s s' : System} (id : String) (t : Ticket)
    → IsFiled s
    → Move s s'
    → get s.tickets id ≡ some t
    → Grown s' id t
Move-Grown id t v (same d n) g = (t, rw d g, Extends-refl t)
Move-Grown {s} {s'} id t v (changed key x u h e l d n) g =
    put-Grown s.tickets s' key id t u d g
      (λ k. let same_ticket : x ≡ t = ground (arith, k) in subst (λ y. Extends y u) same_ticket e)
Move-Grown {s} {s'} id t v (added u i st r q d n) g =
    put-Grown s.tickets s' (ticket_id (s.auto_increment + 1)) id t u d g
      (λ k. absurd (ground (arith, k, get-next s v)))

-- Whatever the methods do later to a ticket of a sound system, its id still finds it, with its
-- priority, its time of creation and its deadlines unchanged, its history and its comments
-- extended at the end, and no fewer escalations.
pub run-Extends :
    (s : System) (os : List Operation) (id : String) (t : Ticket)
    → IsFiled s
    → get s.tickets id ≡ some t
    → (u : Ticket) × (get (run s os).tickets id ≡ some u) × Extends t u
unfolding run
run-Extends s [] id t v g = (t, g, Extends-refl t)
run-Extends s (o ∷ os) id t v g =
    let (u, h, x) = Move-Grown id t v (step-Move s o) g in
    let (w, k, y) = run-Extends (step s o) os id u (Move-IsFiled (step-Move s o) v) h in
    (w, k, Extends-trans x y)

Move-closing :
    {s s' : System} (id : String) (t u : Ticket)
    → Move s s'
    → get s.tickets id ≡ some t
    → get s'.tickets id ≡ some u
    → u.status ≡ closed
    → (t.status ≡ closed) ⊎ (may_close t.status ≡ true)
Move-closing id t u (same d n) g h c = inl (ground (arith, rw d at h))
Move-closing {s} id t u (changed key x w f e l d n) g h c =
    let found : get (put s.tickets key w) id ≡ some u = rw d at h in
    elim (Bool-cases (key == id)) [
      | inr miss ↦ inl (ground (arith, get-put s.tickets key id w))
      | inl hit ↦
          let same_ticket : x ≡ t = ground (arith, (==_iff key id).0 hit) in
          let new_ticket : w ≡ u = ground (arith, get-put s.tickets key id w) in
          elim l [
            | inl kept ↦ inl (ground arith)
            | inr allowed ↦ inr (
                subst (λ y. may_close y.status ≡ true) same_ticket
                  (allowed (subst (λ y. y.status ≡ closed) (sym new_ticket) c)))
          ]
    ]
Move-closing {s} id t u (added w i st r q d n) g h c =
    let key : String = ticket_id (s.auto_increment + 1) in
    let found : get (put s.tickets key w) id ≡ some u = rw d at h in
    inl (ground (arith, get-put s.tickets key id w))

may_close_cases : (a : Status) → may_close a ≡ true → (a ≡ resolved) ⊎ (a ≡ reopened)
unfolding Status-discrete
may_close_cases a h = ground arith

-- A method leaves a ticket closed only if it was closed before, resolved or reopened.
pub step_closing :
    (s : System) (o : Operation) (id : String) (t u : Ticket)
    → get s.tickets id ≡ some t
    → get (step s o).tickets id ≡ some u
    → u.status ≡ closed
    → (t.status ≡ closed) ⊎ ((t.status ≡ resolved) ⊎ (t.status ≡ reopened))
step_closing s o id t u g h c = elim (Move-closing id t u (step-Move s o) g h c) [
  | inl was ↦ inl was
  | inr allowed ↦ inr (may_close_cases t.status allowed)
]

-- `close` succeeds on a ticket that is resolved or reopened: its id then finds it closed, at the
-- time of the call, and every other id finds what it found before.
close_closes :
    (clock : Clock) (s : System) (id closer : String) (t : Ticket)
    → get s.tickets id ≡ some t
    → may_close t.status ≡ true
    → (u : Ticket) × ((close clock s id closer).1 ≡ some u)
      × (u.status ≡ closed)
      × (u.closed_at ≡ clock 0)
      × ((j : String)
          → get (close clock s id closer).0.tickets j
            ≡ (if id == j then some u else get s.tickets j))
unfolding close change_and_notify
close_closes clock s id closer t g allowed = (
  closed_by clock closer t,
  ground arith,
  unfold closed_by in refl,
  unfold closed_by in refl,
  λ j.
      rw (g, close)
        (rw allowed (
          rw (g, change_and_notify)
            (ap (λ d. get d j) (tickets-notify _ _ _)
              ∙ get-put s.tickets id j (closed_by clock closer t)))),
)

-- Where the id finds no ticket, or one that may not be closed, `close` leaves the system as it was.
close_refuses :
    (clock : Clock) (s : System) (id closer : String) (t : Ticket)
    → get s.tickets id ≡ some t
    → may_close t.status ≡ false
    → close clock s id closer ≡ (s, none)
unfolding close
close_refuses clock s id closer t g refused = ground arith

resolved_may_close : (a : Status) → may_close a ≡ false → a ≢ resolved
unfolding Status-discrete
resolved_may_close a h e = ground (arith, sym (ap may_close e) ∙ h)

reopened_may_close : (a : Status) → may_close a ≡ false → a ≢ reopened
unfolding Status-discrete
reopened_may_close a h e = ground (arith, sym (ap may_close e) ∙ h)

-- Of a ticket that the system has, `close` decides by its status. One that is resolved or reopened
-- is given back closed at the time of the call; its id finds what is given back, and every other id
-- finds what it found before. For one that is neither, `close` gives nothing back and leaves the
-- system as it was.
pub close_decides :
    (clock : Clock) (s : System) (id closer : String) (t : Ticket)
    → get s.tickets id ≡ some t
    → (((t.status ≡ resolved) ⊎ (t.status ≡ reopened))
        × ((u : Ticket) × ((close clock s id closer).1 ≡ some u)
            × (u.status ≡ closed)
            × (u.closed_at ≡ clock 0)
            × ((j : String)
                → get (close clock s id closer).0.tickets j
                  ≡ (if id == j then some u else get s.tickets j))))
      ⊎ ((t.status ≢ resolved) × (t.status ≢ reopened) × (close clock s id closer ≡ (s, none)))
close_decides clock s id closer t g = elim (Bool-cases (may_close t.status)) [
  | inl e ↦ inl (may_close_cases t.status e, close_closes clock s id closer t g e)
  | inr e ↦ inr (
    resolved_may_close t.status e,
    reopened_may_close t.status e,
    close_refuses clock s id closer t g e,
  )
]
