-- ===== src/Sessions/Files.antt =====
-- evolution/session_state_manager.py: the constructor, `_load_all` and `save_all`. A file that was
-- written holds the session as JSON, which reads back as it was; files that do not are outside.
use photon_kernel_sil.Prelude.{ℕ, String, Bool, List, [], ◌∷◌, Option, none, some, string_eq}
use photon_kernel_sil.Prelude.Dict.{Dict, get_or, put, values}
use photon_kernel_sil.Sessions.Types.{SessionState, SessionStateManager, World}
use photon_kernel_sil.Sessions.Store.{write_file}
use photon_kernel_sil.Sessions.Lifecycle.{add}

-- The loop of `_load_all` over the files
unfoldable pub load_files : List SessionState → SessionStateManager → SessionStateManager
load_files [] m = m
load_files (s ∷ rest) m = load_files rest (record m {
  sessions = put m.sessions s.session_id s;
  tenant_sessions =
      put m.tenant_sessions s.tenant_id
        (add (get_or m.tenant_sessions s.tenant_id []) s.session_id);
})

-- `SessionStateManager(…)`, with the files of the storage directory
unfoldable pub new_manager :
    Option (Dict String SessionState) → Option ℕ → ℕ → Bool → SessionStateManager
unfolding load_files
new_manager files default_ttl max_snapshots enable_audit_log =
    load_files (elim files [ none ↦ [] | some fs ↦ values fs ])
      (record {
        default_ttl = default_ttl;
        max_snapshots_per_session = max_snapshots;
        enable_audit_log = enable_audit_log;
        sessions = [];
        snapshots = [];
        change_logs = [];
        tenant_sessions = [];
        files = files;
      })

-- The files after each of the sessions is written
unfoldable pub write_all :
    (String → String)
    → Bool
    → List SessionState
    → Option (Dict String SessionState)
    → Option (Dict String SessionState)
write_all safe_id written [] files = files
write_all safe_id written (s ∷ rest) files =
    write_all safe_id written rest (write_file safe_id written s files)

unfoldable pub save_all : (String → String) → World → SessionStateManager → SessionStateManager
unfolding write_all
save_all safe_id w m = record m { files = write_all safe_id w.written (values m.sessions) m.files }
