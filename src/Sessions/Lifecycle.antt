-- ===== src/Sessions/Lifecycle.antt =====
-- evolution/session_state_manager.py: the life of a session, from `create_session` to
-- `delete_session`.
use photon_kernel_sil.Prelude.{
  ℕ, suc, ◌+◌, String, Bool, true, false, not, List, [], ◌∷◌, ◌++◌, Option, none, some, ◌==◌,
  string_eq, any, keep, if◌then◌else◌,
}
use photon_kernel_sil.Prelude.Dict.{Dict, get, get_or, put, delete}
use photon_kernel_sil.Prelude.Text.{text_append}
use photon_kernel_sil.Sessions.Types.{
  active, suspended, completed, status_value, status_eq, SessionState, SessionSnapshot,
  SessionStateManager, World,
}
use photon_kernel_sil.Sessions.Store.{
  log_change, entry, persist_session, remove_file, create_snapshot_internal, store, visible,
  touched,
}

-- What `create_session` is asked for
pub record Request : Type 0 where
  pub session_type : String
  pub tenant_id : String
  pub initial_state : Dict String String
  pub metadata : Dict String String
  pub ttl : Option ℕ
  pub parent_session_id : Option String
  pub tags : List String

abbrev pub session_id_of : World → String
session_id_of w = text_append "sess_" w.session_uuid

-- `now + ttl`, for the time to live of the call or else the one of the manager
abbrev pub expiry : ℕ → Option ℕ → Option ℕ → Option ℕ
expiry now (some ttl) default = some (now + ttl)
expiry now none (some ttl) = some (now + ttl)
expiry now none none = none

unfoldable pub new_session : World → Option ℕ → Request → SessionState
new_session w default_ttl r = record {
  session_id = session_id_of w;
  session_type = r.session_type;
  tenant_id = r.tenant_id;
  status = active;
  created_at = w.clock 0;
  updated_at = w.clock 0;
  last_accessed_at = w.clock 0;
  expires_at = expiry (w.clock 0) r.ttl default_ttl;
  state = r.initial_state;
  metadata = r.metadata;
  parent_session_id = r.parent_session_id;
  tags = r.tags;
}

-- `s.add(id)` and `s.discard(id)`, of a set that is a list without repetitions
unfoldable pub add : List String → String → List String
add ids id = if any (λ i. i == id) ids then ids else ids ++ id ∷ []

unfoldable pub discard : List String → String → List String
discard ids id = keep (λ i. not (i == id)) ids

-- `dict.update`
unfoldable pub merge : Dict String String → Dict String String → Dict String String
merge d [] = d
merge d ((k, v) ∷ updates) = merge (put d k v) updates

-- The entries of `update_state`, one for each key, with the value from before the update
unfoldable pub log_updates :
    (ℕ → ℕ)
    → ℕ
    → String
    → String
    → Dict String String
    → Dict String String
    → SessionStateManager
    → SessionStateManager
log_updates clock k session_id actor old [] m = m
log_updates clock k session_id actor old ((key, value) ∷ updates) m =
    log_updates clock (suc k) session_id actor old updates (
      log_change
        (record (entry (clock k) session_id "update") {
          field = key;
          old_value = get old key;
          new_value = some value;
          actor = actor;
        })
        m)

unfoldable pub get_session :
    World → SessionStateManager → String → Option String → SessionStateManager × Option SessionState
get_session w m session_id tenant_id = elim (visible m session_id tenant_id) [
  | none ↦ (m, none)
  | some s ↦ (store session_id (touched (w.clock 0) s) m, some (touched (w.clock 0) s))
]

unfoldable pub get_state_value :
    World
    → SessionStateManager
    → String
    → String
    → String
    → Option String
    → SessionStateManager × String
get_state_value w m session_id key default tenant_id = elim (visible m session_id tenant_id) [
  | none ↦ (m, default)
  | some s ↦ (store session_id (touched (w.clock 0) s) m, get_or s.state key default)
]

-- The state of the newest snapshot, or what it is
abbrev pub latest_state : Dict String String → List SessionSnapshot → Dict String String
latest_state state [] = state
latest_state state (s ∷ snapshots) = latest_state s.state snapshots

module _ (safe_id : String → String) where
  unfoldable pub create_session :
      World → SessionStateManager → Request → SessionStateManager × SessionState
  unfolding new_session add
  create_session w m r =
      let s = new_session w m.default_ttl r in
      let m1 = record (store s.session_id s m) {
        tenant_sessions =
            put m.tenant_sessions r.tenant_id
              (add (get_or m.tenant_sessions r.tenant_id []) s.session_id);
      } in
      let reason =
        text_append "Created "
          (text_append r.session_type (text_append " session for tenant " r.tenant_id)) in
      let m2 =
        log_change (record (entry (w.clock 1) s.session_id "create") { reason = reason }) m1 in
      (persist_session safe_id w s (create_snapshot_internal w (w.clock 2) s "initial" m2), s)

  unfoldable pub update_state :
      World
      → SessionStateManager
      → String
      → Dict String String
      → Option String
      → String
      → SessionStateManager × Option SessionState
  unfolding merge log_updates
  update_state w m session_id updates tenant_id actor = elim (visible m session_id tenant_id) [
    | none ↦ (m, none)
    | some s ↦
        let s' = record s {
          last_accessed_at = w.clock 0;
          state = merge s.state updates;
          updated_at = w.clock 1;
        } in
        (
          persist_session safe_id w s'
              (log_updates w.clock 2 session_id actor s.state updates (store session_id s' m)),
          some s',
        )
  ]

  unfoldable pub set_state :
      World
      → SessionStateManager
      → String
      → String
      → String
      → Option String
      → String
      → SessionStateManager × Option SessionState
  set_state w m session_id key value tenant_id actor =
      update_state w m session_id ((key, value) ∷ []) tenant_id actor

  unfoldable pub suspend_session :
      World
      → SessionStateManager
      → String
      → String
      → Option String
      → SessionStateManager × Option SessionState
  suspend_session w m session_id reason tenant_id = elim (visible m session_id tenant_id) [
    | none ↦ (m, none)
    | some s ↦
        let s' = record s {
          last_accessed_at = w.clock 0;
          status = suspended;
          updated_at = w.clock 1;
        } in
        let m1 =
          create_snapshot_internal w (w.clock 2) s' (text_append "suspend: " reason)
            (store session_id s' m) in
        (
          persist_session safe_id w s' (
              log_change
                (record (entry (w.clock 3) session_id "suspend") {
                  old_value = some (status_value s.status);
                  new_value = some "suspended";
                  reason = reason;
                })
                m1),
          some s',
        )
  ]

  unfoldable pub resume_session :
      World
      → SessionStateManager
      → String
      → Option String
      → String
      → SessionStateManager × Option SessionState
  resume_session w m session_id tenant_id actor = elim (visible m session_id tenant_id) [
    | none ↦ (m, none)
    | some s ↦
        let s' = record s {
          state = latest_state s.state (get_or m.snapshots session_id []);
          status = active;
          updated_at = w.clock 1;
          last_accessed_at = w.clock 2;
        } in
        (
          persist_session safe_id w s' (
              log_change
                (record (entry (w.clock 3) session_id "resume") {
                  old_value = some (status_value s.status);
                  new_value = some "active";
                  actor = actor;
                })
                (store session_id s' m)),
          some s',
        )
  ]

  unfoldable pub complete_session :
      World
      → SessionStateManager
      → String
      → Dict String String
      → Option String
      → SessionStateManager × Option SessionState
  unfolding merge
  complete_session w m session_id final_state tenant_id = elim (visible m session_id tenant_id) [
    | none ↦ (m, none)
    | some s ↦
        let s' = record s {
          last_accessed_at = w.clock 0;
          state = merge s.state final_state;
          status = completed;
          updated_at = w.clock 1;
        } in
        let m1 = create_snapshot_internal w (w.clock 2) s' "completed" (store session_id s' m) in
        (
          persist_session safe_id w s' (
              log_change
                (record (entry (w.clock 3) session_id "complete") {
                  old_value = some (status_value s.status);
                  new_value = some "completed";
                })
                m1),
          some s',
        )
  ]

  unfoldable pub delete_session :
      World → SessionStateManager → String → Option String → String → SessionStateManager × Bool
  unfolding delete discard
  delete_session w m session_id tenant_id actor = elim (visible m session_id tenant_id) [
    | none ↦ (m, false)
    | some s ↦
        let m1 = record m {
          sessions = delete m.sessions session_id;
          snapshots = delete m.snapshots session_id;
          tenant_sessions = elim (get m.tenant_sessions s.tenant_id) [
            | none ↦ m.tenant_sessions
            | some ids ↦ put m.tenant_sessions s.tenant_id (discard ids session_id)
          ];
        } in
        let m2 = log_change (record (entry (w.clock 0) session_id "delete") { actor = actor }) m1 in
        (record m2 { files = remove_file safe_id w.written session_id m2.files }, true)
  ]
