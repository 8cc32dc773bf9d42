-- ===== src/Sessions/Snapshots.antt =====
-- evolution/session_state_manager.py: snapshots on demand, the way back to one, the continuation of
-- an earlier session, and the cleanup of expired ones.
use photon_kernel_sil.Prelude.{
  ℕ, suc, String, Bool, false, ◌&&◌, List, [], ◌∷◌, Option, none, some, ltb, ◌==◌, string_eq,
  if◌then◌else◌,
}
use photon_kernel_sil.Prelude.Dict.{get, get_or, put, keys}
use photon_kernel_sil.Prelude.Text.{text_append, or_else}
use photon_kernel_sil.Sessions.Types.{
  active, expired, status_eq, SessionState, SessionSnapshot, SessionStateManager, World,
}
use photon_kernel_sil.Sessions.Store.{
  log_change, entry, persist_session, create_snapshot_internal, new_snapshot, store, visible,
  touched,
}
use photon_kernel_sil.Sessions.Lifecycle.{Request, create_session}

unfoldable pub create_snapshot :
    World
    → SessionStateManager
    → String
    → String
    → Option String
    → SessionStateManager × Option SessionSnapshot
create_snapshot w m session_id reason tenant_id = elim (visible m session_id tenant_id) [
  | none ↦ (m, none)
  | some s ↦
      let s' = touched (w.clock 0) s in
      (
        create_snapshot_internal w (w.clock 1) s' reason (store session_id s' m),
        some (new_snapshot w (w.clock 1) s' reason),
      )
]

unfoldable pub list_snapshots :
    World
    → SessionStateManager
    → String
    → Option String
    → SessionStateManager × List SessionSnapshot
list_snapshots w m session_id tenant_id = elim (visible m session_id tenant_id) [
  | none ↦ (m, [])
  | some s ↦ (store session_id (touched (w.clock 0) s) m, get_or m.snapshots session_id [])
]

unfoldable pub find_snapshot : String → List SessionSnapshot → Option SessionSnapshot
find_snapshot snapshot_id [] = none
find_snapshot snapshot_id (s ∷ snapshots) =
    let rest = find_snapshot snapshot_id snapshots in
    if s.snapshot_id == snapshot_id then some s else rest

-- The session is active and its time is over.
unfoldable pub overdue : ℕ → SessionState → Bool
overdue now s = elim s.expires_at [ none ↦ false | some t ↦ ltb t now ] && (s.status == active)

module _ (safe_id : String → String) where
  unfoldable pub restore_snapshot :
      World
      → SessionStateManager
      → String
      → String
      → Option String
      → String
      → SessionStateManager × Option SessionState
  unfolding find_snapshot
  restore_snapshot w m session_id snapshot_id tenant_id actor =
      elim (visible m session_id tenant_id) [
        | none ↦ (m, none)
        | some s ↦
            let seen = touched (w.clock 0) s in
            elim (find_snapshot snapshot_id (get_or m.snapshots session_id [])) [
              | none ↦ (store session_id seen m, none)
              | some target ↦
                  let s' = record seen { state = target.state; updated_at = w.clock 2 } in
                  let m1 =
                    create_snapshot_internal w (w.clock 1) seen
                      (text_append "pre_restore_to_" snapshot_id) (store session_id s' m) in
                  let entry' = record (entry (w.clock 3) session_id "update") {
                    field = "__full_state__";
                    old_value =
                        some
                          (text_append "<state before restore to " (text_append snapshot_id ">"));
                    new_value = some (text_append "<restored from " (text_append snapshot_id ">"));
                    actor = actor;
                    reason = text_append "Restored from snapshot " snapshot_id;
                  } in
                  (persist_session safe_id w s' (log_change entry' m1), some s')
            ]
      ]

  -- `printed` is the text of the time in the metadata.
  unfoldable pub resume_from_previous :
      (ℕ → String)
      → World
      → SessionStateManager
      → String
      → String
      → Option String
      → Bool
      → Bool
      → Bool
      → SessionStateManager × Option SessionState
  resume_from_previous printed w m previous_id new_type tenant_id inherit_state inherit_metadata
        inherit_tags =
      elim (visible m previous_id tenant_id) [
        | none ↦ (m, none)
        | some previous ↦
            let metadata = if inherit_metadata then previous.metadata else [] in
            let request : Request = record {
              session_type = or_else new_type previous.session_type;
              tenant_id = previous.tenant_id;
              initial_state = if inherit_state then previous.state else [];
              metadata =
                  put (put metadata "inherited_from" previous_id) "inherited_at"
                    (printed (w.clock 0));
              ttl = none;
              parent_session_id = some previous_id;
              tags = if inherit_tags then previous.tags else [];
            } in
            let (m', s) =
              create_session safe_id (record w { clock = λ k. w.clock (suc k) }) m request in
            (m', some s)
      ]

  -- One session of the loop of `cleanup_expired`. The reading k is for its snapshot, the next one for
  -- the log.
  unfoldable pub expire :
      World
      → (ℕ → String)
      → ℕ
      → ℕ
      → String
      → SessionState
      → SessionStateManager
      → SessionStateManager
  expire w uuids now k session_id s m =
      let s' = record s { status = expired; updated_at = now } in
      let w' = record w { snapshot_uuid = uuids k } in
      let m1 = create_snapshot_internal w' (w.clock k) s "auto_expire" m in
      let entry' = record (entry (w.clock (suc k)) session_id "expire") {
        old_value = some "active";
        new_value = some "expired";
        reason = "TTL expired";
      } in
      persist_session safe_id w s' (log_change entry' (store session_id s' m1))

  -- The loop over the ids, with the session that each one has then
  unfoldable pub expire_all :
      World → (ℕ → String) → ℕ → ℕ → List String → SessionStateManager → SessionStateManager × ℕ
  unfolding overdue expire
  expire_all w uuids now k [] m = (m, 0)
  expire_all w uuids now k (session_id ∷ rest) m =
      let skip = expire_all w uuids now k rest m in
      elim (get m.sessions session_id) [
        | none ↦ skip
        | some s ↦
            let next =
              expire_all w uuids now (suc (suc k)) rest (expire w uuids now k session_id s m) in
            if overdue now s then (next.0, suc next.1) else skip
      ]

  unfoldable pub cleanup_expired :
      World → (ℕ → String) → SessionStateManager → SessionStateManager × ℕ
  unfolding expire_all
  cleanup_expired w uuids m = expire_all w uuids (w.clock 0) 1 (keys m.sessions) m
