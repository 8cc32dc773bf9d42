-- ===== src/Tickets/Keys.antt =====
-- What every history keeps of the keys, the number and the deadlines of the tickets.
use photon_kernel_sil.Prelude.{
  ℕ, ◌+◌, ◌≤◌, ◌*◌, String, List, [], ◌∷◌, ◌≡◌, none, refl, sym, ◌∙◌, ap, arith, length, All-mono,
  string_eq, Bool,
}
use photon_kernel_sil.Prelude.Dict.{
  get, Entries, Entries-put, Entries-get, get-absent, length-put_new, length-put_old,
}
use photon_kernel_sil.Tickets.Types.{
  Priority, sla_response, sla_resolve, second, Ticket, System, init,
}
use photon_kernel_sil.Tickets.Desk.{ticket_id}
use photon_kernel_sil.Tickets.Runs.{Operation, step, run}
use photon_kernel_sil.Tickets.Moves.{ticket_id_injective, Extends, Move, same, changed, added}
use photon_kernel_sil.Tickets.Methods.{step-Move}

-- A ticket filed under its own id, which is one of the first `n`, with its deadlines in order.
pub record Filed (n : ℕ) (key : String) (t : Ticket) : Type 0 where
  pub named : t.id ≡ key
  pub number : ℕ
  pub numbered : key ≡ ticket_id number
  pub issued : number ≤ n
  pub started : t.created_at ≤ t.sla_response_deadline
  pub ordered : t.sla_response_deadline ≤ t.sla_resolve_deadline

pub record IsFiled (s : System) : Type 0 where
  pub filed : Entries (Filed s.auto_increment) s.tickets
  pub counted : length s.tickets ≡ s.auto_increment

Filed-later : {n m : ℕ} (key : String) (t : Ticket) → n ≤ m → Filed n key t → Filed m key t
Filed-later key t h f = record {
  named = f.named;
  number = f.number;
  numbered = f.numbered;
  issued = omega arith;
  started = f.started;
  ordered = f.ordered;
}

Filed-Extends : {n : ℕ} (key : String) (t u : Ticket) → Extends t u → Filed n key t → Filed n key u
Filed-Extends key t u x f = record {
  named = x.id ∙ f.named;
  number = f.number;
  numbered = f.numbered;
  issued = f.issued;
  started = omega (arith, x.created_at, x.response, f.started);
  ordered = omega (arith, x.response, x.resolve, f.ordered);
}

sla_order : (p : Priority) → sla_response p * second ≤ sla_resolve p * second
sla_order p = ground arith

-- The next id is not the key of a ticket.
pub get-next : (s : System) → IsFiled s → get s.tickets (ticket_id (s.auto_increment + 1)) ≡ none
get-next s v = get-absent s.tickets (ticket_id (s.auto_increment + 1)) (
    All-mono _ _
      (λ entry f. λ e. absurd (
        omega (
          arith,
          ticket_id_injective f.number (s.auto_increment + 1) (sym f.numbered ∙ e),
          f.issued,
        )))
      s.tickets v.filed)

pub Move-IsFiled : {s s' : System} → Move s s' → IsFiled s → IsFiled s'
Move-IsFiled (same d n) v = record { filed = rw (d, n) v.filed; counted = rw (d, n) v.counted }
Move-IsFiled {s} (changed id t u g x l d n) v = record {
  filed =
      rw (d, n)
        (Entries-put (Filed s.auto_increment) s.tickets id u v.filed
          (Filed-Extends id t u x (Entries-get (Filed s.auto_increment) s.tickets id t v.filed g)));
  counted = rw (d, n) (length-put_old s.tickets id u t g ∙ v.counted);
}
Move-IsFiled {s} (added t i st r q d n) v = record {
  filed =
      rw (d, n)
        (Entries-put (Filed (s.auto_increment + 1)) s.tickets (ticket_id (s.auto_increment + 1)) t
          (All-mono _ _ (λ entry f. Filed-later entry.0 entry.1 (omega arith) f) s.tickets v.filed)
          (record {
            named = i;
            number = s.auto_increment + 1;
            numbered = refl;
            issued = omega arith;
            started = omega (arith, r);
            ordered = omega (arith, r, q, sla_order t.priority);
          }));
  counted =
      rw (d, n)
        (length-put_new s.tickets (ticket_id (s.auto_increment + 1)) t (get-next s v)
          ∙ ap (λ k. k + 1) v.counted);
}

run_from-IsFiled : (s : System) (os : List Operation) → IsFiled s → IsFiled (run s os)
unfolding run
run_from-IsFiled s [] v = v
run_from-IsFiled s (o ∷ os) v = run_from-IsFiled (step s o) os (Move-IsFiled (step-Move s o) v)

-- After any history from a new system: there are as many tickets as numbers were given out, so no
-- ticket was ever overwritten; each is filed under its own id, which carries one of the numbers;
-- and its deadline for a response comes no later than its deadline for a solution.
pub run-IsFiled : (callback : Bool) (os : List Operation) → IsFiled (run (init callback) os)
unfolding init
run-IsFiled callback os =
    run_from-IsFiled (init callback) os (record { filed = tt; counted = refl })
