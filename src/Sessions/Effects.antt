-- ===== src/Sessions/Effects.antt =====
-- What a call can do to the sessions and to the index of the tenants, as a relation.
use photon_kernel_sil.Prelude.{
  ℕ, suc, String, true, List, [], ◌∷◌, Option, none, some, ◌≡◌, ◌⊎◌, inl, inr, refl, ◌∙◌, arith,
  string_eq, Bool-cases, Option-cases,
}
use photon_kernel_sil.Prelude.Dict.{Dict, get, get_or, put, delete}
use photon_kernel_sil.Sessions.Types.{SessionState, SessionChangeLog, SessionStateManager}
use photon_kernel_sil.Sessions.Store.{log_change, permitted, visible}
use photon_kernel_sil.Sessions.Lifecycle.{add, discard, log_updates}

-- What stays of a session whatever is done to it
pub record Keeps (s u : SessionState) : Type 0 where
  pub id : u.session_id ≡ s.session_id
  pub tenant : u.tenant_id ≡ s.tenant_id
  pub created : u.created_at ≡ s.created_at
  pub parent : u.parent_session_id ≡ s.parent_session_id

-- The index without an id
abbrev pub unlisted : Dict String (List String) → String → String → Dict String (List String)
unlisted index tenant_id session_id = elim (get index tenant_id) [
  | none ↦ index
  | some ids ↦ put index tenant_id (discard ids session_id)
]

-- One change by a caller: of nothing, of a session that the caller may see, a new session or the end
-- of one.
pub data Move (tenant : Option String) (m m' : SessionStateManager) : Type 0 where
  same : m'.sessions ≡ m.sessions → m'.tenant_sessions ≡ m.tenant_sessions → Move tenant m m'
  changed :
      (id : String) (s u : SessionState)
      → get m.sessions id ≡ some s
      → permitted tenant s ≡ true
      → Keeps s u
      → m'.sessions ≡ put m.sessions id u
      → m'.tenant_sessions ≡ m.tenant_sessions
      → Move tenant m m'
  added :
      (s : SessionState)
      → get m.sessions s.session_id ≡ none
      → permitted tenant s ≡ true
      → m'.sessions ≡ put m.sessions s.session_id s
      → m'.tenant_sessions
        ≡ put m.tenant_sessions s.tenant_id
            (add (get_or m.tenant_sessions s.tenant_id []) s.session_id)
      → Move tenant m m'
  removed :
      (id : String) (s : SessionState)
      → get m.sessions id ≡ some s
      → permitted tenant s ≡ true
      → m'.sessions ≡ delete m.sessions id
      → m'.tenant_sessions ≡ unlisted m.tenant_sessions s.tenant_id id
      → Move tenant m m'

-- Some changes, one after the other
pub data Moves (tenant : Option String) (m : SessionStateManager)
    : SessionStateManager → Type 0 where
  none_yet : Moves tenant m m
  next :
      (m' m'' : SessionStateManager) → Moves tenant m m' → Move tenant m' m'' → Moves tenant m m''

pub visible-cases :
    (m : SessionStateManager) (id : String) (tenant : Option String)
    → (visible m id tenant ≡ none)
      ⊎ ((s : SessionState) × (visible m id tenant ≡ some s)
          × (get m.sessions id ≡ some s)
          × (permitted tenant s ≡ true))
unfolding visible
visible-cases m id tenant = elim (Option-cases (get m.sessions id)) [
  | inl e ↦ inl (rw (e, visible) refl)
  | inr (s, e) ↦ elim (Bool-cases (permitted tenant s)) [
    | inl p ↦ inr (s, rw (e, visible, p) refl, e, p)
    | inr p ↦ inl (rw (e, visible, p) refl)
  ]
]

-- An entry of the audit log changes nothing else.
pub log_change-rest :
    (e : SessionChangeLog) (m : SessionStateManager)
    → ((log_change e m).sessions ≡ m.sessions)
      × ((log_change e m).tenant_sessions ≡ m.tenant_sessions)
      × ((log_change e m).snapshots ≡ m.snapshots)
      × ((log_change e m).max_snapshots_per_session ≡ m.max_snapshots_per_session)
unfolding log_change
log_change-rest e m = ground arith

pub log_updates-rest :
    (clock : ℕ → ℕ) (k : ℕ) (id actor : String) (old updates : Dict String String)
    (m : SessionStateManager)
    → ((log_updates clock k id actor old updates m).sessions ≡ m.sessions)
      × ((log_updates clock k id actor old updates m).tenant_sessions ≡ m.tenant_sessions)
      × ((log_updates clock k id actor old updates m).snapshots ≡ m.snapshots)
      × ((log_updates clock k id actor old updates m).max_snapshots_per_session
          ≡ m.max_snapshots_per_session)
unfolding log_updates
log_updates-rest clock k id actor old [] m = (refl, refl, refl, refl)
log_updates-rest clock k id actor old ((key, value) ∷ updates) m =
    let (a, b, c, d) = log_change-rest _ m in
    let (a', b', c', d') = log_updates-rest clock (suc k) id actor old updates _ in
    (a' ∙ a, b' ∙ b, c' ∙ c, d' ∙ d)

pub permitted-same :
    (tenant : Option String) (s u : SessionState)
    → u.tenant_id ≡ s.tenant_id
    → permitted tenant s ≡ true
    → permitted tenant u ≡ true
permitted-same none s u e h = refl
permitted-same (some t) s u e h = rw e h
