-- ===== src/Sessions/Store.antt =====
-- evolution/session_state_manager.py: the audit log, the snapshots and the files behind the methods.
-- `safe_id` is the part of the file name, the beginning of the digest of the id.
use photon_kernel_sil.Prelude.{
  ℕ, ◌-◌, String, Bool, true, List, [], ◌∷◌, ◌++◌, Option, none, some, ltb, ◌==◌, nat_eq, string_eq,
  drop, length, if◌then◌else◌,
}
use photon_kernel_sil.Prelude.Dict.{Dict, get, get_or, put, delete}
use photon_kernel_sil.Prelude.Text.{text_append}
use photon_kernel_sil.Sessions.Types.{
  SessionState, SessionSnapshot, SessionChangeLog, SessionStateManager, World,
}

-- `xs[-n:]`, which is all of `xs` where n is 0
unfoldable pub last_n {ℓ} : {A : Type ℓ} → ℕ → List A → List A
last_n n xs = if n == 0 then xs else drop (length xs - n) xs

abbrev pub max_logs : ℕ
max_logs = 10000

unfoldable pub keep_logs : List SessionChangeLog → List SessionChangeLog
unfolding last_n
keep_logs logs = if ltb max_logs (length logs) then last_n max_logs logs else logs

-- `_log_change`
unfoldable pub log_change : SessionChangeLog → SessionStateManager → SessionStateManager
unfolding keep_logs
log_change entry m =
    if m.enable_audit_log
    then record m { change_logs = keep_logs (m.change_logs ++ entry ∷ []) }
    else m

-- An entry with the defaults of the keyword arguments
abbrev pub entry : ℕ → String → String → SessionChangeLog
entry now session_id operation = record {
  timestamp = now;
  session_id = session_id;
  operation = operation;
  field = "";
  old_value = none;
  new_value = none;
  actor = "system";
  reason = "";
}

unfoldable pub session_file : (String → String) → String → String
session_file safe_id session_id = text_append "session_" (text_append (safe_id session_id) ".json")

-- `_persist_session`: a failure to write is ignored.
unfoldable pub write_file :
    (String → String)
    → Bool
    → SessionState
    → Option (Dict String SessionState)
    → Option (Dict String SessionState)
write_file safe_id written s none = none
write_file safe_id written s (some files) =
    if written then some (put files (session_file safe_id s.session_id) s) else some files

abbrev pub persist_session :
    (String → String) → World → SessionState → SessionStateManager → SessionStateManager
persist_session safe_id w s m = record m { files = write_file safe_id w.written s m.files }

-- `_delete_persisted_session`
unfoldable pub remove_file :
    (String → String)
    → Bool
    → String
    → Option (Dict String SessionState)
    → Option (Dict String SessionState)
remove_file safe_id written session_id none = none
remove_file safe_id written session_id (some files) =
    if written then some (delete files (session_file safe_id session_id)) else some files

unfoldable pub new_snapshot : World → ℕ → SessionState → String → SessionSnapshot
new_snapshot w now s reason = record {
  snapshot_id = text_append "snap_" w.snapshot_uuid;
  session_id = s.session_id;
  timestamp = now;
  state = s.state;
  metadata = s.metadata;
  reason = reason;
}

-- The rolling window of `_create_snapshot_internal`
unfoldable pub window : ℕ → List SessionSnapshot → List SessionSnapshot
unfolding last_n
window max snapshots = if ltb max (length snapshots) then last_n max snapshots else snapshots

unfoldable pub create_snapshot_internal :
    World → ℕ → SessionState → String → SessionStateManager → SessionStateManager
unfolding new_snapshot window
create_snapshot_internal w now s reason m = record m {
  snapshots = put m.snapshots s.session_id (
      window m.max_snapshots_per_session
        (get_or m.snapshots s.session_id [] ++ new_snapshot w now s reason ∷ []));
}

-- A session is a shared object in the source; here it is stored again under its id.
abbrev pub store : String → SessionState → SessionStateManager → SessionStateManager
store session_id s m = record m { sessions = put m.sessions session_id s }

-- `tenant_id is not None and session.tenant_id != tenant_id`, the other way round
abbrev pub permitted : Option String → SessionState → Bool
permitted none s = true
permitted (some tenant_id) s = s.tenant_id == tenant_id

-- A session that the caller may see
unfoldable pub visible : SessionStateManager → String → Option String → Option SessionState
visible m session_id tenant_id = elim (get m.sessions session_id) [
  | none ↦ none
  | some s ↦ if permitted tenant_id s then some s else none
]

abbrev pub touched : ℕ → SessionState → SessionState
touched now s = record s { last_accessed_at = now }
