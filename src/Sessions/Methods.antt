-- ===== src/Sessions/Methods.antt =====
-- The changes that each method makes.
use photon_kernel_sil.Prelude.{
  String, true, [], Option, none, ◌≡◌, inl, inr, refl, string_eq, Option-cases,
}
use photon_kernel_sil.Prelude.Dict.{Dict, get, get_or}
use photon_kernel_sil.Sessions.Types.{SessionState, SessionStateManager, World}
use photon_kernel_sil.Sessions.Store.{permitted, touched, create_snapshot_internal}
use photon_kernel_sil.Sessions.Lifecycle.{
  Request, new_session, session_id_of, create_session, get_session, update_state, suspend_session,
  resume_session, complete_session, delete_session,
}
use photon_kernel_sil.Sessions.Snapshots.{create_snapshot, find_snapshot, restore_snapshot}
use photon_kernel_sil.Sessions.Effects.{
  Keeps, Move, Moves, changed, added, removed, none_yet, next, visible-cases, log_change-rest,
  log_updates-rest,
}

pub once :
    {tenant : Option String} {m m' : SessionStateManager} → Move tenant m m' → Moves tenant m m'
once {tenant} {m} {m'} move = next m m' none_yet move

pub kept :
    {s u : SessionState}
    → u.session_id ≡ s.session_id
    → u.tenant_id ≡ s.tenant_id
    → u.created_at ≡ s.created_at
    → u.parent_session_id ≡ s.parent_session_id
    → Keeps s u
kept a b c d = record { id = a; tenant = b; created = c; parent = d }

pub get_session-Moves :
    (w : World) (m : SessionStateManager) (id : String) (tenant : Option String)
    → Moves tenant m (get_session w m id tenant).0
unfolding get_session
get_session-Moves w m id tenant = elim (visible-cases m id tenant) [
  | inl e ↦ rw (e, get_session) none_yet
  | inr (s, e, found, may) ↦
      rw (e, get_session)
        (once (changed id s (touched (w.clock 0) s) found may (kept refl refl refl refl) refl refl))
]

pub create_snapshot-Moves :
    (w : World) (m : SessionStateManager) (id reason : String) (tenant : Option String)
    → Moves tenant m (create_snapshot w m id reason tenant).0
unfolding create_snapshot create_snapshot_internal
create_snapshot-Moves w m id reason tenant = elim (visible-cases m id tenant) [
  | inl e ↦ rw (e, create_snapshot) none_yet
  | inr (s, e, found, may) ↦
      rw (e, create_snapshot)
        (once (changed id s (touched (w.clock 0) s) found may (kept refl refl refl refl) refl refl))
]

module _ (safe_id : String → String) where
  pub create_session-Moves :
      (tenant : Option String) (w : World) (m : SessionStateManager) (r : Request)
      → get m.sessions (session_id_of w) ≡ none
      → permitted tenant (new_session w m.default_ttl r) ≡ true
      → Moves tenant m (create_session safe_id w m r).0
  unfolding create_session create_snapshot_internal new_session
  create_session-Moves tenant w m r fresh may =
      let s = new_session w m.default_ttl r in
      once (added s fresh may (log_change-rest _ _).0 (log_change-rest _ _).1)

  pub update_state-Moves :
      (w : World) (m : SessionStateManager) (id : String) (changes : Dict String String)
      (tenant : Option String) (actor : String)
      → Moves tenant m (update_state safe_id w m id changes tenant actor).0
  unfolding update_state
  update_state-Moves w m id changes tenant actor = elim (visible-cases m id tenant) [
    | inl e ↦ rw (e, update_state) none_yet
    | inr (s, e, found, may) ↦
        let (a, b, _, _) = log_updates-rest w.clock 2 id actor s.state changes _ in
        rw (e, update_state) (once (changed id s _ found may (kept refl refl refl refl) a b))
  ]

  pub suspend_session-Moves :
      (w : World) (m : SessionStateManager) (id reason : String) (tenant : Option String)
      → Moves tenant m (suspend_session safe_id w m id reason tenant).0
  unfolding suspend_session create_snapshot_internal
  suspend_session-Moves w m id reason tenant = elim (visible-cases m id tenant) [
    | inl e ↦ rw (e, suspend_session) none_yet
    | inr (s, e, found, may) ↦
        rw (e, suspend_session)
          (once (
            changed id s _ found may (kept refl refl refl refl) (log_change-rest _ _).0
              (log_change-rest _ _).1))
  ]

  pub resume_session-Moves :
      (w : World) (m : SessionStateManager) (id : String) (tenant : Option String) (actor : String)
      → Moves tenant m (resume_session safe_id w m id tenant actor).0
  unfolding resume_session
  resume_session-Moves w m id tenant actor = elim (visible-cases m id tenant) [
    | inl e ↦ rw (e, resume_session) none_yet
    | inr (s, e, found, may) ↦
        rw (e, resume_session)
          (once (
            changed id s _ found may (kept refl refl refl refl) (log_change-rest _ _).0
              (log_change-rest _ _).1))
  ]

  pub complete_session-Moves :
      (w : World) (m : SessionStateManager) (id : String) (final : Dict String String)
      (tenant : Option String)
      → Moves tenant m (complete_session safe_id w m id final tenant).0
  unfolding complete_session create_snapshot_internal
  complete_session-Moves w m id final tenant = elim (visible-cases m id tenant) [
    | inl e ↦ rw (e, complete_session) none_yet
    | inr (s, e, found, may) ↦
        rw (e, complete_session)
          (once (
            changed id s _ found may (kept refl refl refl refl) (log_change-rest _ _).0
              (log_change-rest _ _).1))
  ]

  pub delete_session-Moves :
      (w : World) (m : SessionStateManager) (id : String) (tenant : Option String) (actor : String)
      → Moves tenant m (delete_session safe_id w m id tenant actor).0
  unfolding delete_session
  delete_session-Moves w m id tenant actor = elim (visible-cases m id tenant) [
    | inl e ↦ rw (e, delete_session) none_yet
    | inr (s, e, found, may) ↦
        rw (e, delete_session)
          (once (removed id s found may (log_change-rest _ _).0 (log_change-rest _ _).1))
  ]

  pub restore_snapshot-Moves :
      (w : World) (m : SessionStateManager) (id snapshot_id : String) (tenant : Option String)
      (actor : String)
      → Moves tenant m (restore_snapshot safe_id w m id snapshot_id tenant actor).0
  unfolding restore_snapshot create_snapshot_internal
  restore_snapshot-Moves w m id snapshot_id tenant actor = elim (visible-cases m id tenant) [
    | inl e ↦ rw (e, restore_snapshot) none_yet
    | inr (s, e, found, may) ↦
        elim (Option-cases (find_snapshot snapshot_id (get_or m.snapshots id []))) [
          | inl f ↦
              rw (e, f, restore_snapshot)
                (once (
                  changed id s (touched (w.clock 0) s) found may (kept refl refl refl refl) refl
                    refl))
          | inr (target, f) ↦
              rw (e, f, restore_snapshot)
                (once (
                  changed id s _ found may (kept refl refl refl refl) (log_change-rest _ _).0
                    (log_change-rest _ _).1))
        ]
  ]
