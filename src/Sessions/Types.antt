-- ===== src/Sessions/Types.antt =====
-- evolution/session_state_manager.py: the data. Times are in microseconds; the values of a state are
-- the texts that they print.
use photon_kernel_sil.Prelude.{ℕ, String, Bool, List, Option, Eq, eq_of_discrete}
use photon_kernel_sil.Prelude.Dict.{Dict}

pub data SessionStatus : Type 0 where
  active suspended completed expired archived : SessionStatus

unfoldable pub SessionStatus-discrete : Discrete SessionStatus
SessionStatus-discrete = hlevel

instance abbrev pub status_eq : Eq SessionStatus
status_eq = eq_of_discrete SessionStatus-discrete

abbrev pub status_value : SessionStatus → String
status_value active = "active"
status_value suspended = "suspended"
status_value completed = "completed"
status_value expired = "expired"
status_value archived = "archived"

pub record SessionSnapshot : Type 0 where
  pub snapshot_id : String
  pub session_id : String
  pub timestamp : ℕ
  pub state : Dict String String
  pub metadata : Dict String String
  pub reason : String

pub record SessionChangeLog : Type 0 where
  pub timestamp : ℕ
  pub session_id : String
  pub operation : String
  pub field : String
  pub old_value : Option String
  pub new_value : Option String
  pub actor : String
  pub reason : String

pub record SessionState : Type 0 where
  pub session_id : String
  pub session_type : String
  pub tenant_id : String
  pub status : SessionStatus
  pub created_at : ℕ
  pub updated_at : ℕ
  pub last_accessed_at : ℕ
  pub expires_at : Option ℕ
  pub state : Dict String String
  pub metadata : Dict String String
  pub parent_session_id : Option String
  pub tags : List String

-- `SessionStateManager`. The files of the storage directory are a dict by file name, `none` where
-- the manager keeps its sessions in memory only; `default_ttl` is in microseconds.
pub record SessionStateManager : Type 0 where
  pub default_ttl : Option ℕ
  pub max_snapshots_per_session : ℕ
  pub enable_audit_log : Bool
  pub sessions : Dict String SessionState
  pub snapshots : Dict String (List SessionSnapshot)
  pub change_logs : List SessionChangeLog
  pub tenant_sessions : Dict String (List String)
  pub files : Option (Dict String SessionState)

-- What one call takes from outside: the readings of the clock, the hexadecimal digits of new uuids
-- for a session and for a snapshot, and whether files can be written.
pub record World : Type 0 where
  pub clock : ℕ → ℕ
  pub session_uuid : String
  pub snapshot_uuid : String
  pub written : Bool
