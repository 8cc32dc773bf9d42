-- ===== src/Sessions/Runs.antt =====
-- Histories of a session manager.
use photon_kernel_sil.Prelude.{ℕ, String, Bool, Option, none, some, ◌≡◌, string_eq}
use photon_kernel_sil.Prelude.Dict.{Dict, get}
use photon_kernel_sil.Sessions.Types.{SessionStateManager, World}
use photon_kernel_sil.Sessions.Lifecycle.{
  Request, session_id_of, create_session, get_session, update_state, suspend_session,
  resume_session, complete_session, delete_session,
}
use photon_kernel_sil.Sessions.Snapshots.{
  create_snapshot, restore_snapshot, resume_from_previous, cleanup_expired,
}
use photon_kernel_sil.Sessions.Files.{save_all}

pub data Operation : Type 0 where
  creates : World → Request → Operation
  gets : World → String → Option String → Operation
  updates : World → String → Dict String String → Option String → String → Operation
  suspends : World → String → String → Option String → Operation
  resumes : World → String → Option String → String → Operation
  completes : World → String → Dict String String → Option String → Operation
  deletes : World → String → Option String → String → Operation
  takes : World → String → String → Option String → Operation
  restores : World → String → String → Option String → String → Operation
  continues :
      (ℕ → String) → World → String → String → Option String → Bool → Bool → Bool → Operation
  cleans : World → (ℕ → String) → Operation
  saves : World → Operation

unfoldable pub step : (String → String) → SessionStateManager → Operation → SessionStateManager
step safe_id m (creates w r) = (create_session safe_id w m r).0
step safe_id m (gets w id tenant) = (get_session w m id tenant).0
step safe_id m (updates w id changes tenant actor) =
    (update_state safe_id w m id changes tenant actor).0
step safe_id m (suspends w id reason tenant) = (suspend_session safe_id w m id reason tenant).0
step safe_id m (resumes w id tenant actor) = (resume_session safe_id w m id tenant actor).0
step safe_id m (completes w id final tenant) = (complete_session safe_id w m id final tenant).0
step safe_id m (deletes w id tenant actor) = (delete_session safe_id w m id tenant actor).0
step safe_id m (takes w id reason tenant) = (create_snapshot w m id reason tenant).0
step safe_id m (restores w id snapshot_id tenant actor) =
    (restore_snapshot safe_id w m id snapshot_id tenant actor).0
step safe_id m (continues printed w id type tenant state metadata tags) =
    (resume_from_previous safe_id printed w m id type tenant state metadata tags).0
step safe_id m (cleans w uuids) = (cleanup_expired safe_id w uuids m).0
step safe_id m (saves w) = save_all safe_id w m

-- The tenant that an operation names; `none` may see every session.
abbrev pub caller : Operation → Option String
caller (creates w r) = some r.tenant_id
caller (gets w id tenant) = tenant
caller (updates w id changes tenant actor) = tenant
caller (suspends w id reason tenant) = tenant
caller (resumes w id tenant actor) = tenant
caller (completes w id final tenant) = tenant
caller (deletes w id tenant actor) = tenant
caller (takes w id reason tenant) = tenant
caller (restores w id snapshot_id tenant actor) = tenant
caller (continues printed w id type tenant state metadata tags) = tenant
caller (cleans w uuids) = none
caller (saves w) = none

-- A new uuid is the uuid of no session there is.
abbrev pub Fresh : SessionStateManager → Operation → Type 0
Fresh m (creates w r) = get m.sessions (session_id_of w) ≡ none
Fresh m (continues printed w id type tenant state metadata tags) =
    get m.sessions (session_id_of w) ≡ none
Fresh m (gets w id tenant) = Unit
Fresh m (updates w id changes tenant actor) = Unit
Fresh m (suspends w id reason tenant) = Unit
Fresh m (resumes w id tenant actor) = Unit
Fresh m (completes w id final tenant) = Unit
Fresh m (deletes w id tenant actor) = Unit
Fresh m (takes w id reason tenant) = Unit
Fresh m (restores w id snapshot_id tenant actor) = Unit
Fresh m (cleans w uuids) = Unit
Fresh m (saves w) = Unit

-- The states that a manager without files at its start can get to
pub data Reachable (safe_id : String → String) (start : SessionStateManager)
    : SessionStateManager → Type 0 where
  initial : Reachable safe_id start start
  after :
      (m : SessionStateManager) (o : Operation)
      → Reachable safe_id start m
      → Fresh m o
      → Reachable safe_id start (step safe_id m o)
