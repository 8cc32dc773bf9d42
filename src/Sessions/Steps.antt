-- ===== src/Sessions/Steps.antt =====
-- The changes that each step makes.
use photon_kernel_sil.Prelude.{
  ℕ, suc, String, Bool, List, [], ◌∷◌, Option, none, some, ◌≡◌, inl, inr, refl, arith, string_eq,
  ==_iff, Bool-cases, Option-cases,
}
use photon_kernel_sil.Prelude.Dict.{get}
use photon_kernel_sil.Sessions.Types.{SessionState, SessionStateManager, World}
use photon_kernel_sil.Sessions.Store.{create_snapshot_internal}
use photon_kernel_sil.Sessions.Lifecycle.{new_session, session_id_of}
use photon_kernel_sil.Sessions.Snapshots.{
  resume_from_previous, overdue, expire_all, cleanup_expired,
}
use photon_kernel_sil.Sessions.Files.{save_all}
use photon_kernel_sil.Sessions.Runs.{
  Operation, creates, gets, updates, suspends, resumes, completes, deletes, takes, restores,
  continues, cleans, saves, step, caller, Fresh,
}
use photon_kernel_sil.Sessions.Effects.{
  Move, Moves, same, changed, none_yet, next, visible-cases, log_change-rest, permitted-same,
}
use photon_kernel_sil.Sessions.Snapshots.{expire}
use photon_kernel_sil.Sessions.Methods.{
  once, kept, get_session-Moves, create_snapshot-Moves, create_session-Moves, update_state-Moves,
  suspend_session-Moves, resume_session-Moves, complete_session-Moves, delete_session-Moves,
  restore_snapshot-Moves,
}

Moves-append :
    {tenant : Option String} {m m' m'' : SessionStateManager}
    → Moves tenant m m'
    → Moves tenant m' m''
    → Moves tenant m m''
Moves-append a none_yet = a
Moves-append a (next m' m'' b move) = next m' m'' (Moves-append a b) move

module _ (safe_id : String → String) where
  resume_from_previous-Moves :
      (printed : ℕ → String) (w : World) (m : SessionStateManager) (id type : String)
      (tenant : Option String) (state metadata tags : Bool)
      → get m.sessions (session_id_of w) ≡ none
      → Moves tenant m
          (resume_from_previous safe_id printed w m id type tenant state metadata tags).0
  unfolding resume_from_previous new_session
  resume_from_previous-Moves printed w m id type tenant state metadata tags fresh =
      elim (visible-cases m id tenant) [
        | inl e ↦ rw (e, resume_from_previous) none_yet
        | inr (s, e, found, may) ↦
            rw (e, resume_from_previous)
              (create_session-Moves safe_id tenant (record w { clock = λ k. w.clock (suc k) }) m _
                fresh (permitted-same tenant s _ refl may))
      ]

  expire-Move :
      (w : World) (uuids : ℕ → String) (now k : ℕ) (id : String) (s : SessionState)
      (m : SessionStateManager)
      → get m.sessions id ≡ some s
      → Move none m (expire safe_id w uuids now k id s m)
  unfolding expire create_snapshot_internal
  expire-Move w uuids now k id s m found =
      changed id s _ found refl (kept refl refl refl refl) (log_change-rest _ _).0
        (log_change-rest _ _).1

  expire_all-Moves :
      (w : World) (uuids : ℕ → String) (now k : ℕ) (ids : List String) (m : SessionStateManager)
      → Moves none m (expire_all safe_id w uuids now k ids m).0
  unfolding expire_all
  expire_all-Moves w uuids now k [] m = none_yet
  expire_all-Moves w uuids now k (id ∷ ids) m = elim (Option-cases (get m.sessions id)) [
    | inl e ↦ rw (e, expire_all) (expire_all-Moves w uuids now k ids m)
    | inr (s, e) ↦ elim (Bool-cases (overdue now s)) [
      | inl o ↦
          rw (e, o, expire_all)
            (Moves-append (once (expire-Move w uuids now k id s m e)) (
              expire_all-Moves w uuids now (suc (suc k)) ids (expire safe_id w uuids now k id s m)))
      | inr o ↦ rw (e, o, expire_all) (expire_all-Moves w uuids now k ids m)
    ]
  ]

  -- A step makes changes that its caller may make, where a new uuid is new.
  pub step-Moves :
      (m : SessionStateManager) (o : Operation) → Fresh m o → Moves (caller o) m (step safe_id m o)
  unfolding step cleanup_expired save_all new_session
  step-Moves m (creates w r) fresh =
      create_session-Moves safe_id (some r.tenant_id) w m r fresh
        (ground (arith, ==_iff r.tenant_id r.tenant_id))
  step-Moves m (gets w id tenant) fresh = get_session-Moves w m id tenant
  step-Moves m (updates w id changes tenant actor) fresh =
      update_state-Moves safe_id w m id changes tenant actor
  step-Moves m (suspends w id reason tenant) fresh =
      suspend_session-Moves safe_id w m id reason tenant
  step-Moves m (resumes w id tenant actor) fresh = resume_session-Moves safe_id w m id tenant actor
  step-Moves m (completes w id final tenant) fresh =
      complete_session-Moves safe_id w m id final tenant
  step-Moves m (deletes w id tenant actor) fresh = delete_session-Moves safe_id w m id tenant actor
  step-Moves m (takes w id reason tenant) fresh = create_snapshot-Moves w m id reason tenant
  step-Moves m (restores w id snapshot_id tenant actor) fresh =
      restore_snapshot-Moves safe_id w m id snapshot_id tenant actor
  step-Moves m (continues printed w id type tenant state metadata tags) fresh =
      resume_from_previous-Moves printed w m id type tenant state metadata tags fresh
  step-Moves m (cleans w uuids) fresh = expire_all-Moves w uuids (w.clock 0) 1 _ m
  step-Moves m (saves w) fresh = once (same refl refl)
