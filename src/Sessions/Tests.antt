-- ===== src/Sessions/Tests.antt =====
-- Runs of the session manager at concrete inputs.
use photon_kernel_sil.Prelude.{
  ℕ, ◌+◌, ◌≤◌, String, true, List, [], ◌∷◌, none, some, ◌≡◌, refl, arith, any, ◌==◌, string_eq,
  length,
}
use photon_kernel_sil.Prelude.Dict.{get, get_or, put}
use photon_kernel_sil.Prelude.Text.{text_append}
use photon_kernel_sil.Sessions.Types.{
  SessionStatus-discrete, SessionState, SessionSnapshot, SessionStateManager, World,
}
use photon_kernel_sil.Sessions.Store.{
  log_change, keep_logs, last_n, create_snapshot_internal, window, new_snapshot,
}
use photon_kernel_sil.Sessions.Lifecycle.{Request, new_session, add, create_session, resume_session}
use photon_kernel_sil.Sessions.Snapshots.{
  create_snapshot, find_snapshot, restore_snapshot, expire_all, cleanup_expired, overdue, expire,
}
use photon_kernel_sil.Sessions.Queries.{list_sessions_by_tenant, get_session_chain}
use photon_kernel_sil.Sessions.Files.{new_manager, load_files}
use photon_kernel_sil.Sessions.Runs.{creates, step, Reachable, initial, after}
use photon_kernel_sil.Sessions.Invariant.{owned}
use photon_kernel_sil.Sessions.Tenants.{empty_manager, list_sessions_by_tenant_lem}
use photon_kernel_sil.Sessions.Growth.{Reachable-IsBounded}
use photon_kernel_sil.Sessions.Replay.{
  Call, writes, sets, reads, answers, expected, run, answers_refine,
}
use photon_kernel_sil.Sessions.Restore.{
  state_of, restore_snapshot-create_snapshot, resume_session_loses,
}
use photon_kernel_sil.Sessions.Chains.{is_some, get_session_chain_ends}

abbrev plain : String → String
plain id = id

abbrev world : ℕ → String → World
world now uuid = record {
  clock = λ k. now + k;
  session_uuid = uuid;
  snapshot_uuid = uuid;
  written = true;
}

abbrev request : String → Request
request tenant = record {
  session_type = "task";
  tenant_id = tenant;
  initial_state = ("goal", "scan") ∷ [];
  metadata = [];
  ttl = some 50;
  parent_session_id = none;
  tags = [];
}

abbrev start : SessionStateManager
start = empty_manager none 2 true

abbrev one : SessionStateManager
one = step plain start (creates (world 100 "1") (request "acme"))

abbrev two : SessionStateManager
two = step plain one (creates (world 110 "2") (request "globex"))

two-Reachable : Reachable plain start two
unfolding step create_session get put add log_change create_snapshot_internal new_manager load_files
two-Reachable =
    after one (creates (world 110 "2") (request "globex"))
      (after start (creates (world 100 "1") (request "acme")) initial refl) refl

abbrev acme_session : SessionState
acme_session = new_session (world 100 "1") none (request "acme")

list_sessions_by_tenant_lem_example :
    any (λ s. s.session_id == "sess_2") (list_sessions_by_tenant two "globex" none none)
    ≡ owned (get two.sessions "sess_2") "globex"
list_sessions_by_tenant_lem_example =
    list_sessions_by_tenant_lem plain none 2 true two "globex" "sess_2" two-Reachable

Reachable-IsBounded_example :
    ((id : String) → length (get_or two.snapshots id []) ≤ 2) × (length two.change_logs ≤ 10000)
Reachable-IsBounded_example = Reachable-IsBounded plain none 2 true two (omega arith) two-Reachable

abbrev calls : List Call
calls =
    reads (world 200 "x") "goal" "?"
    ∷ sets (world 210 "x") "goal" "stop" "bob"
    ∷ writes (world 220 "x") (("step", "2") ∷ []) "bob"
    ∷ reads (world 230 "x") "goal" "?"
    ∷ reads (world 240 "x") "missing" "?"
    ∷ []

answers_refine_example :
    answers plain "sess_1" (some "acme") two calls ≡ expected (get acme_session.state) calls
unfolding step create_session get put add log_change create_snapshot_internal new_session
    new_manager
answers_refine_example =
    answers_refine plain two "sess_1" (some "acme") acme_session calls refl refl refl

expected-calls : expected (get acme_session.state) calls ≡ ("scan" ∷ "stop" ∷ "?" ∷ [])
unfolding expected get new_session
expected-calls = refl

restore_snapshot-create_snapshot_example :
    let m1 = (create_snapshot (world 130 "s") two "sess_1" "manual" (some "acme")).0 in
    let m2 = run plain "sess_1" (some "acme") m1 calls in
    let restored =
      restore_snapshot plain
        (world 300 "r")
        m2
        "sess_1"
        (text_append "snap_" "s")
        (some "acme")
        "bob" in
    (state_of restored.1 ≡ some acme_session.state)
    × (state_of (get restored.0.sessions "sess_1") ≡ some acme_session.state)
unfolding step create_session get get_or put add log_change create_snapshot_internal new_session
    window new_snapshot find_snapshot new_manager
restore_snapshot-create_snapshot_example =
    restore_snapshot-create_snapshot plain (world 130 "s") (world 300 "r") two "sess_1" "manual"
      (some "acme") "bob" acme_session calls refl refl refl (omega arith) refl

abbrev first_snapshot : SessionSnapshot
first_snapshot = new_snapshot (world 100 "1") 102 acme_session "initial"

-- The first session was only created and updated; the resumption undoes the updates.
resume_session_loses_example :
    let resumed =
      resume_session plain
        (world 300 "r")
        (run plain "sess_1" (some "acme") two calls)
        "sess_1"
        (some "acme")
        "bob" in
    (state_of resumed.1 ≡ some first_snapshot.state)
    × (state_of (get resumed.0.sessions "sess_1") ≡ some first_snapshot.state)
unfolding step create_session get get_or put add log_change create_snapshot_internal new_session
    window new_snapshot new_manager
resume_session_loses_example =
    resume_session_loses plain (world 300 "r") two "sess_1" (some "acme") "bob" acme_session calls
      [] first_snapshot refl refl refl refl

abbrev orphan : SessionState
orphan = record acme_session { session_id = "a"; parent_session_id = some "b" }

abbrev twin : SessionState
twin = record acme_session { session_id = "b"; parent_session_id = some "a" }

get_session_chain_ends_example :
    is_some (get_session_chain 3 (record two { sessions = ("a", orphan) ∷ ("b", twin) ∷ [] }) "a")
    ≡ true
get_session_chain_ends_example =
    get_session_chain_ends (record two { sessions = ("a", orphan) ∷ ("b", twin) ∷ [] }) "a"

cleanup_expired-two : (cleanup_expired plain (world 155 "c") (λ k. "c") two).1 ≡ 1
unfolding cleanup_expired expire_all overdue expire step create_session get put add log_change
    create_snapshot_internal new_session window keep_logs last_n new_manager SessionStatus-discrete
cleanup_expired-two = refl
