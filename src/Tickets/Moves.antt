-- ===== src/Tickets/Moves.antt =====
-- What one method can do to the tickets, as a step relation.
use mathlib.Core.List.{append-nil, append_assoc}
use native.Mathlib.Nat.{le_trans}
use text.Mathlib.TextLemmas.{append_cancel_left}
use photon_kernel_sil.Prelude.{
  ℕ, ◌+◌, ◌*◌, ◌≤◌, String, Bool, true, false, List, [], ◌∷◌, ◌++◌, some, ◌≡◌, ◌⊎◌, refl, ap, sym,
  ◌∙◌, arith, inl, inr, Bool-cases, Option-cases, string_eq,
}
use photon_kernel_sil.Prelude.Dict.{Dict, get, put}
use photon_kernel_sil.Prelude.Text.{padded_injective, truthy}
use photon_kernel_sil.Tickets.Types.{
  Status, created, closed, Comment, HistoryEntry, Ticket, System, Clock, Priority, Category,
  sla_response, sla_resolve, second,
}
use photon_kernel_sil.Tickets.Desk.{ticket_id, add_history, new_ticket, create, notify}
use photon_kernel_sil.Tickets.Flow.{
  new_comment, commented, commented_if, may_close, change, change_and_notify,
}

pub ticket_id_injective : (m n : ℕ) → ticket_id m ≡ ticket_id n → m ≡ n
unfolding ticket_id
ticket_id_injective m n e = padded_injective 6 m n (append_cancel_left "PHOTON-" _ _ e)

-- What no method changes of a ticket, and what it only adds to.
pub record Extends (t u : Ticket) : Type 0 where
  pub id : u.id ≡ t.id
  pub priority : u.priority ≡ t.priority
  pub created_at : u.created_at ≡ t.created_at
  pub response : u.sla_response_deadline ≡ t.sla_response_deadline
  pub resolve : u.sla_resolve_deadline ≡ t.sla_resolve_deadline
  pub escalations : t.escalation_count ≤ u.escalation_count
  pub new_entries : List HistoryEntry
  pub history : u.history ≡ t.history ++ new_entries
  pub new_comments : List Comment
  pub comments : u.comments ≡ t.comments ++ new_comments

-- A ticket is closed only from the two states that `close` allows.
abbrev pub Legal : Status → Status → Type 0
Legal a b = (b ≡ a) ⊎ (b ≡ closed → may_close a ≡ true)

-- What one method can do to the tickets and to the number of the last one.
pub data Move (s s' : System) : Type 0 where
  same : s'.tickets ≡ s.tickets → s'.auto_increment ≡ s.auto_increment → Move s s'
  changed :
      (id : String) (t u : Ticket)
      → get s.tickets id ≡ some t
      → Extends t u
      → Legal t.status u.status
      → s'.tickets ≡ put s.tickets id u
      → s'.auto_increment ≡ s.auto_increment
      → Move s s'
  added :
      (t : Ticket)
      → t.id ≡ ticket_id (s.auto_increment + 1)
      → t.status ≡ created
      → t.sla_response_deadline ≡ t.created_at + sla_response t.priority * second
      → t.sla_resolve_deadline ≡ t.created_at + sla_resolve t.priority * second
      → s'.tickets ≡ put s.tickets (ticket_id (s.auto_increment + 1)) t
      → s'.auto_increment ≡ s.auto_increment + 1
      → Move s s'

abbrev pub Allowed : (Ticket → Ticket) → Ticket → Type 0
Allowed f t = Extends t (f t) × Legal t.status (f t).status

pub change-Move :
    (s : System) (id : String) (f : Ticket → Ticket)
    → ((t : Ticket) → Allowed f t)
    → Move s (change s id f).0
unfolding change
change-Move s id f allowed = elim (Option-cases (get s.tickets id)) [
  | inl e ↦ same (ground arith) (ground arith)
  | inr (t, e) ↦
      let (extends, legal) = allowed t in
      changed id t (f t) e extends legal (ground arith) (ground arith)
]

-- A notification changes neither the tickets nor their number.
pub change_and_notify-Move :
    (s : System) (id : String) (f : Ticket → Ticket) (message : Ticket → String) (t : Ticket)
    → get s.tickets id ≡ some t
    → Allowed f t
    → Move s (change_and_notify s id f message).0
unfolding change_and_notify
change_and_notify-Move s id f message t e (extends, legal) =
    changed id t (f t) e extends legal (ground arith) (ground arith)

pub notified-Move :
    (s : System) (id : String) (f : Ticket → Ticket) (message : Ticket → String)
    → ((t : Ticket) → Allowed f t)
    → Move s (change_and_notify s id f message).0
unfolding change_and_notify
notified-Move s id f message allowed = elim (Option-cases (get s.tickets id)) [
  | inl e ↦ same (ground arith) (ground arith)
  | inr (t, e) ↦ change_and_notify-Move s id f message t e (allowed t)
]

pub tickets-notify :
    (t : Ticket) (message : String) (s : System) → (notify t message s).tickets ≡ s.tickets
unfolding notify
tickets-notify t message s = ground arith

auto_increment-notify :
    (t : Ticket) (message : String) (s : System)
    → (notify t message s).auto_increment ≡ s.auto_increment
unfolding notify
auto_increment-notify t message s = ground arith

pub create-Move :
    (clock : Clock) (s : System) (title description : String) (c : Category) (p : Priority)
    (reporter : String) (event : Dict String String)
    → Move s (create clock s title description c p reporter event).0
unfolding create new_ticket
create-Move clock s title description c p reporter event =
    added (new_ticket clock (s.auto_increment + 1) title description c p reporter event) refl refl
      refl refl (tickets-notify _ _ _) (auto_increment-notify _ _ _)

pub Extends-trans : {t u v : Ticket} → Extends t u → Extends u v → Extends t v
Extends-trans {t} a b = record {
  id = b.id ∙ a.id;
  priority = b.priority ∙ a.priority;
  created_at = b.created_at ∙ a.created_at;
  response = b.response ∙ a.response;
  resolve = b.resolve ∙ a.resolve;
  escalations = le_trans a.escalations b.escalations;
  new_entries = a.new_entries ++ b.new_entries;
  history =
      b.history
      ∙ ap (λ h. h ++ b.new_entries) a.history
      ∙ append_assoc t.history a.new_entries b.new_entries;
  new_comments = a.new_comments ++ b.new_comments;
  comments =
      b.comments
      ∙ ap (λ c. c ++ b.new_comments) a.comments
      ∙ append_assoc t.comments a.new_comments b.new_comments;
}

-- A ticket that differs only in fields that methods may change.
pub record Alike (t u : Ticket) : Type 0 where
  pub id : u.id ≡ t.id
  pub priority : u.priority ≡ t.priority
  pub created_at : u.created_at ≡ t.created_at
  pub response : u.sla_response_deadline ≡ t.sla_response_deadline
  pub resolve : u.sla_resolve_deadline ≡ t.sla_resolve_deadline
  pub escalations : t.escalation_count ≤ u.escalation_count
  pub history : u.history ≡ t.history
  pub comments : u.comments ≡ t.comments

pub Alike-Extends : {t u : Ticket} → Alike t u → Extends t u
Alike-Extends {t} a = record {
  id = a.id;
  priority = a.priority;
  created_at = a.created_at;
  response = a.response;
  resolve = a.resolve;
  escalations = a.escalations;
  new_entries = [];
  history = a.history ∙ sym (append-nil t.history);
  new_comments = [];
  comments = a.comments ∙ sym (append-nil t.comments);
}

pub add_history-Extends :
    (now : ℕ) (action author : String) (details : Dict String String) (t : Ticket)
    → Extends t (add_history now action author details t)
unfolding add_history
add_history-Extends now action author details t = record {
  id = refl;
  priority = refl;
  created_at = refl;
  response = refl;
  resolve = refl;
  escalations = omega arith;
  new_entries =
      record { timestamp = now; action = action; author = author; details = details } ∷ [];
  history = refl;
  new_comments = [];
  comments = sym (append-nil t.comments);
}

pub commented-Extends :
    (clock : Clock) (uuid author content : String) (internal : Bool) (t : Ticket)
    → Extends t (commented clock uuid author content internal t)
unfolding commented
commented-Extends clock uuid author content internal t = record {
  id = refl;
  priority = refl;
  created_at = refl;
  response = refl;
  resolve = refl;
  escalations = omega arith;
  new_entries = [];
  history = sym (append-nil t.history);
  new_comments = new_comment clock uuid author content internal ∷ [];
  comments = refl;
}

pub commented_if-Extends :
    (clock : Clock) (uuid author content : String) (t : Ticket)
    → Extends t (commented_if clock uuid author content t)
unfolding commented_if
commented_if-Extends clock uuid author content t = elim (Bool-cases (truthy content)) [
  | inl e ↦ rw e (commented-Extends clock uuid author content false t)
  | inr e ↦ rw e (Alike-Extends {t = t} {u = t} (ground arith))
]

pub status-commented_if :
    (clock : Clock) (uuid author content : String) (t : Ticket)
    → (commented_if clock uuid author content t).status ≡ t.status
unfolding commented_if
status-commented_if clock uuid author content t = ground arith
