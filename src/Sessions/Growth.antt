-- ===== src/Sessions/Growth.antt =====
-- The windows of snapshots and of the audit log after each method and over the histories.
use photon_kernel_sil.Prelude.{
  ℕ, suc, ◌≤◌, ◌<◌, String, Bool, List, [], ◌∷◌, Option, ◌≡◌, inl, inr, refl, ap, ◌∙◌, arith,
  string_eq, length, Bool-cases, Option-cases,
}
use photon_kernel_sil.Prelude.Dict.{Dict, get, get_or, delete, get_or-delete}
use photon_kernel_sil.Sessions.Types.{SessionStateManager, World}
use photon_kernel_sil.Sessions.Store.{visible}
use photon_kernel_sil.Sessions.Lifecycle.{
  Request, log_updates, create_session, get_session, update_state, suspend_session, resume_session,
  complete_session, delete_session,
}
use photon_kernel_sil.Sessions.Snapshots.{
  create_snapshot, find_snapshot, restore_snapshot, resume_from_previous, overdue, expire,
  expire_all, cleanup_expired,
}
use photon_kernel_sil.Sessions.Files.{save_all, new_manager, load_files}
use photon_kernel_sil.Sessions.Runs.{
  Operation, creates, gets, updates, suspends, resumes, completes, deletes, takes, restores,
  continues, cleans, saves, step, Reachable, initial, after,
}
use photon_kernel_sil.Sessions.Tenants.{empty_manager}
use photon_kernel_sil.Sessions.Windows.{
  IsBounded, log_change-IsBounded, create_snapshot_internal-IsBounded,
}

-- The windows look at three fields of the manager.
same-IsBounded :
    (max : ℕ) (m m' : SessionStateManager)
    → m'.max_snapshots_per_session ≡ m.max_snapshots_per_session
    → m'.snapshots ≡ m.snapshots
    → m'.change_logs ≡ m.change_logs
    → IsBounded max m
    → IsBounded max m'
same-IsBounded max m m' e f g b = record {
  limit = e ∙ b.limit;
  snapshots = λ id. rw f (b.snapshots id);
  logs = rw g b.logs;
}

removed-IsBounded :
    (max : ℕ) (m m' : SessionStateManager) (id : String)
    → m'.max_snapshots_per_session ≡ m.max_snapshots_per_session
    → m'.snapshots ≡ delete m.snapshots id
    → m'.change_logs ≡ m.change_logs
    → IsBounded max m
    → IsBounded max m'
removed-IsBounded max m m' id e f g b = record {
  limit = e ∙ b.limit;
  snapshots = λ j.
      ground (arith, ap (λ d. get_or d j []) f, get_or-delete m.snapshots id j [], b.snapshots j);
  logs = rw g b.logs;
}

module _ (max : ℕ) (positive : 0 < max) (safe_id : String → String) where
  log_updates-IsBounded :
      (clock : ℕ → ℕ) (k : ℕ) (id actor : String) (old changes : Dict String String)
      (m : SessionStateManager)
      → IsBounded max m
      → IsBounded max (log_updates clock k id actor old changes m)
  unfolding log_updates
  log_updates-IsBounded clock k id actor old [] m b = b
  log_updates-IsBounded clock k id actor old ((key, value) ∷ changes) m b =
      log_updates-IsBounded clock (suc k) id actor old changes _
        (log_change-IsBounded max positive _ m b)

  create_session-IsBounded :
      (w : World) (m : SessionStateManager) (r : Request)
      → IsBounded max m
      → IsBounded max (create_session safe_id w m r).0
  unfolding create_session
  create_session-IsBounded w m r b = same-IsBounded max _ _ refl refl refl (
      create_snapshot_internal-IsBounded max positive _ _ _ _ _
        (log_change-IsBounded max positive _ _ (same-IsBounded max m _ refl refl refl b)))

  get_session-IsBounded :
      (w : World) (m : SessionStateManager) (id : String) (tenant : Option String)
      → IsBounded max m
      → IsBounded max (get_session w m id tenant).0
  unfolding get_session
  get_session-IsBounded w m id tenant b = elim (Option-cases (visible m id tenant)) [
    | inl e ↦ rw (e, get_session) b
    | inr (s, e) ↦ rw (e, get_session) (same-IsBounded max m _ refl refl refl b)
  ]

  update_state-IsBounded :
      (w : World) (m : SessionStateManager) (id : String) (changes : Dict String String)
      (tenant : Option String) (actor : String)
      → IsBounded max m
      → IsBounded max (update_state safe_id w m id changes tenant actor).0
  unfolding update_state
  update_state-IsBounded w m id changes tenant actor b = elim (Option-cases (visible m id tenant)) [
    | inl e ↦ rw (e, update_state) b
    | inr (s, e) ↦
        rw (e, update_state)
          (same-IsBounded max _ _ refl refl refl (
            log_updates-IsBounded w.clock 2 id actor s.state changes _
              (same-IsBounded max m _ refl refl refl b)))
  ]

  suspend_session-IsBounded :
      (w : World) (m : SessionStateManager) (id reason : String) (tenant : Option String)
      → IsBounded max m
      → IsBounded max (suspend_session safe_id w m id reason tenant).0
  unfolding suspend_session
  suspend_session-IsBounded w m id reason tenant b = elim (Option-cases (visible m id tenant)) [
    | inl e ↦ rw (e, suspend_session) b
    | inr (s, e) ↦
        rw (e, suspend_session)
          (same-IsBounded max _ _ refl refl refl (
            log_change-IsBounded max positive _ _ (
              create_snapshot_internal-IsBounded max positive _ _ _ _ _
                (same-IsBounded max m _ refl refl refl b))))
  ]

  resume_session-IsBounded :
      (w : World) (m : SessionStateManager) (id : String) (tenant : Option String) (actor : String)
      → IsBounded max m
      → IsBounded max (resume_session safe_id w m id tenant actor).0
  unfolding resume_session
  resume_session-IsBounded w m id tenant actor b = elim (Option-cases (visible m id tenant)) [
    | inl e ↦ rw (e, resume_session) b
    | inr (s, e) ↦
        rw (e, resume_session)
          (same-IsBounded max _ _ refl refl refl
            (log_change-IsBounded max positive _ _ (same-IsBounded max m _ refl refl refl b)))
  ]

  complete_session-IsBounded :
      (w : World) (m : SessionStateManager) (id : String) (final : Dict String String)
      (tenant : Option String)
      → IsBounded max m
      → IsBounded max (complete_session safe_id w m id final tenant).0
  unfolding complete_session
  complete_session-IsBounded w m id final tenant b = elim (Option-cases (visible m id tenant)) [
    | inl e ↦ rw (e, complete_session) b
    | inr (s, e) ↦
        rw (e, complete_session)
          (same-IsBounded max _ _ refl refl refl (
            log_change-IsBounded max positive _ _ (
              create_snapshot_internal-IsBounded max positive _ _ _ _ _
                (same-IsBounded max m _ refl refl refl b))))
  ]

  delete_session-IsBounded :
      (w : World) (m : SessionStateManager) (id : String) (tenant : Option String) (actor : String)
      → IsBounded max m
      → IsBounded max (delete_session safe_id w m id tenant actor).0
  unfolding delete_session
  delete_session-IsBounded w m id tenant actor b = elim (Option-cases (visible m id tenant)) [
    | inl e ↦ rw (e, delete_session) b
    | inr (s, e) ↦
        rw (e, delete_session)
          (same-IsBounded max _ _ refl refl refl
            (log_change-IsBounded max positive _ _ (removed-IsBounded max m _ id refl refl refl b)))
  ]

  create_snapshot-IsBounded :
      (w : World) (m : SessionStateManager) (id reason : String) (tenant : Option String)
      → IsBounded max m
      → IsBounded max (create_snapshot w m id reason tenant).0
  unfolding create_snapshot
  create_snapshot-IsBounded w m id reason tenant b = elim (Option-cases (visible m id tenant)) [
    | inl e ↦ rw (e, create_snapshot) b
    | inr (s, e) ↦
        rw (e, create_snapshot)
          (create_snapshot_internal-IsBounded max positive _ _ _ _ _
            (same-IsBounded max m _ refl refl refl b))
  ]

  restore_snapshot-IsBounded :
      (w : World) (m : SessionStateManager) (id snapshot_id : String) (tenant : Option String)
      (actor : String)
      → IsBounded max m
      → IsBounded max (restore_snapshot safe_id w m id snapshot_id tenant actor).0
  unfolding restore_snapshot
  restore_snapshot-IsBounded w m id snapshot_id tenant actor b =
      elim (Option-cases (visible m id tenant)) [
        | inl e ↦ rw (e, restore_snapshot) b
        | inr (s, e) ↦ elim (Option-cases (find_snapshot snapshot_id (get_or m.snapshots id []))) [
          | inl f ↦ rw (e, f, restore_snapshot) (same-IsBounded max m _ refl refl refl b)
          | inr (target, f) ↦
              rw (e, f, restore_snapshot)
                (same-IsBounded max _ _ refl refl refl (
                  log_change-IsBounded max positive _ _ (
                    create_snapshot_internal-IsBounded max positive _ _ _ _ _
                      (same-IsBounded max m _ refl refl refl b))))
        ]
      ]

  resume_from_previous-IsBounded :
      (printed : ℕ → String) (w : World) (m : SessionStateManager) (id type : String)
      (tenant : Option String) (state metadata tags : Bool)
      → IsBounded max m
      → IsBounded max
          (resume_from_previous safe_id printed w m id type tenant state metadata tags).0
  unfolding resume_from_previous
  resume_from_previous-IsBounded printed w m id type tenant state metadata tags b =
      elim (Option-cases (visible m id tenant)) [
        | inl e ↦ rw (e, resume_from_previous) b
        | inr (s, e) ↦ rw (e, resume_from_previous) (create_session-IsBounded _ m _ b)
      ]

  expire_all-IsBounded :
      (w : World) (uuids : ℕ → String) (now k : ℕ) (ids : List String) (m : SessionStateManager)
      → IsBounded max m
      → IsBounded max (expire_all safe_id w uuids now k ids m).0
  unfolding expire_all expire
  expire_all-IsBounded w uuids now k [] m b = b
  expire_all-IsBounded w uuids now k (id ∷ ids) m b = elim (Option-cases (get m.sessions id)) [
    | inl e ↦ rw (e, expire_all) (expire_all-IsBounded w uuids now k ids m b)
    | inr (s, e) ↦ elim (Bool-cases (overdue now s)) [
      | inl o ↦
          rw (e, o, expire_all)
            (expire_all-IsBounded w uuids now (suc (suc k)) ids
              (expire safe_id w uuids now k id s m)
              (same-IsBounded max _ _ refl refl refl (
                log_change-IsBounded max positive _ _ (
                  same-IsBounded max _ _ refl refl refl
                    (create_snapshot_internal-IsBounded max positive _ _ _ _ _ b)))))
      | inr o ↦ rw (e, o, expire_all) (expire_all-IsBounded w uuids now k ids m b)
    ]
  ]

  step-IsBounded :
      (m : SessionStateManager) (o : Operation) → IsBounded max m → IsBounded max (step safe_id m o)
  unfolding step cleanup_expired save_all
  step-IsBounded m (creates w r) b = create_session-IsBounded w m r b
  step-IsBounded m (gets w id tenant) b = get_session-IsBounded w m id tenant b
  step-IsBounded m (updates w id changes tenant actor) b =
      update_state-IsBounded w m id changes tenant actor b
  step-IsBounded m (suspends w id reason tenant) b =
      suspend_session-IsBounded w m id reason tenant b
  step-IsBounded m (resumes w id tenant actor) b = resume_session-IsBounded w m id tenant actor b
  step-IsBounded m (completes w id final tenant) b =
      complete_session-IsBounded w m id final tenant b
  step-IsBounded m (deletes w id tenant actor) b = delete_session-IsBounded w m id tenant actor b
  step-IsBounded m (takes w id reason tenant) b = create_snapshot-IsBounded w m id reason tenant b
  step-IsBounded m (restores w id snapshot_id tenant actor) b =
      restore_snapshot-IsBounded w m id snapshot_id tenant actor b
  step-IsBounded m (continues printed w id type tenant state metadata tags) b =
      resume_from_previous-IsBounded printed w m id type tenant state metadata tags b
  step-IsBounded m (cleans w uuids) b = expire_all-IsBounded w uuids (w.clock 0) 1 _ m b
  step-IsBounded m (saves w) b = same-IsBounded max m _ refl refl refl b

empty-IsBounded :
    (ttl : Option ℕ) (max : ℕ) (audit : Bool) → IsBounded max (empty_manager ttl max audit)
unfolding new_manager load_files get get_or
empty-IsBounded ttl max audit = record {
  limit = refl;
  snapshots = λ id. omega arith;
  logs = omega arith;
}

-- For a positive number of snapshots per session, every state that a manager in memory can get to
-- keeps at most that many of each session, and at most 10000 entries of the audit log.
pub Reachable-IsBounded :
    (safe_id : String → String) (ttl : Option ℕ) (max : ℕ) (audit : Bool) (m : SessionStateManager)
    → 0 < max
    → Reachable safe_id (empty_manager ttl max audit) m
    → ((id : String) → length (get_or m.snapshots id []) ≤ max) × (length m.change_logs ≤ 10000)
Reachable-IsBounded safe_id ttl max audit m positive r =
    let b = bounded m r in (b.snapshots, b.logs)
  where
    bounded :
        (k : SessionStateManager)
        → Reachable safe_id (empty_manager ttl max audit) k
        → IsBounded max k
    bounded _ initial = empty-IsBounded ttl max audit
    bounded _ (after k o r fresh) = step-IsBounded max positive safe_id k o (bounded k r)
