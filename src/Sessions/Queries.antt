-- ===== src/Sessions/Queries.antt =====
-- evolution/session_state_manager.py: the chain of a session, the lists of a tenant, the audit log
-- and the statistics.
use photon_kernel_sil.Prelude.{
  ℕ, zero, suc, ◌+◌, String, Bool, true, not, ◌&&◌, ◌||◌, List, [], ◌∷◌, ◌++◌, map, Option, none,
  some, leb, ◌==◌, nat_eq, string_eq, any, keep, length, if◌then◌else◌,
}
use photon_kernel_sil.Prelude.Dict.{Dict, get, get_or, values}
use photon_kernel_sil.Prelude.Text.{truthy}
use photon_kernel_sil.Prelude.Sorting.{sort_by, tally}
use photon_kernel_sil.Sessions.Types.{
  status_value, SessionState, SessionSnapshot, SessionChangeLog, SessionStateManager,
}
use photon_kernel_sil.Sessions.Store.{last_n}

-- The loop of `get_session_chain` with fuel; the newest session first. `none` where the fuel runs
-- out. The chain ends at an id that is empty, was visited or finds nothing.
unfoldable pub chain_from :
    ℕ → Dict String SessionState → List String → String → Option (List SessionState)
chain_from zero sessions visited id = none
chain_from (suc fuel) sessions visited id =
    let rest = λ (s : SessionState). chain_from fuel sessions (id ∷ visited) in
    if not (truthy id) || any (λ v. v == id) visited then some [] else elim (get sessions id) [
      | none ↦ some []
      | some s ↦ elim s.parent_session_id [
        | none ↦ some (s ∷ [])
        | some parent ↦ elim (rest s parent) [ none ↦ none | some chain ↦ some (s ∷ chain) ]
      ]
    ]

-- `chain.reverse()`
unfoldable pub reversed {ℓ} : {A : Type ℓ} → List A → List A
reversed [] = []
reversed (x ∷ xs) = reversed xs ++ x ∷ []

unfoldable pub get_session_chain : ℕ → SessionStateManager → String → Option (List SessionState)
unfolding chain_from reversed
get_session_chain fuel m id = elim (chain_from fuel m.sessions [] id) [
  | none ↦ none
  | some chain ↦ some (reversed chain)
]

abbrev pub filtered : Option String → String → Bool
filtered none value = true
filtered (some wanted) value = if truthy wanted then value == wanted else true

-- The sessions under the ids of a tenant that pass the filters, in the order of the ids
unfoldable pub of_tenant :
    Dict String SessionState → Option String → Option String → List String → List SessionState
of_tenant sessions status type [] = []
of_tenant sessions status type (id ∷ ids) =
    let rest = of_tenant sessions status type ids in
    elim (get sessions id) [
      | none ↦ rest
      | some s ↦
          if filtered status (status_value s.status) && filtered type s.session_type
          then s ∷ rest
          else rest
    ]

abbrev pub newer : SessionState → SessionState → Bool
newer s t = leb t.created_at s.created_at

unfoldable pub list_sessions_by_tenant :
    SessionStateManager → String → Option String → Option String → List SessionState
unfolding of_tenant
list_sessions_by_tenant m tenant_id status type =
    sort_by newer (of_tenant m.sessions status type (get_or m.tenant_sessions tenant_id []))

pub record TenantStatistics : Type 0 where
  pub tenant_id : String
  pub total_sessions : ℕ
  pub sessions_by_status : Dict String ℕ
  pub sessions_by_type : Dict String ℕ
  pub active_sessions : ℕ

unfoldable pub get_tenant_statistics : SessionStateManager → String → TenantStatistics
get_tenant_statistics m tenant_id =
    let sessions = list_sessions_by_tenant m tenant_id none none in
    let by_status = tally [] (map (λ s. status_value s.status) sessions) in
    record {
      tenant_id = tenant_id;
      total_sessions = length sessions;
      sessions_by_status = by_status;
      sessions_by_type = tally [] (map (λ s. s.session_type) sessions);
      active_sessions = get_or by_status "active" 0;
    }

unfoldable pub get_change_logs : SessionStateManager → Option String → ℕ → List SessionChangeLog
get_change_logs m session_id limit = last_n limit (elim session_id [
  | none ↦ m.change_logs
  | some id ↦ if truthy id then keep (λ e. e.session_id == id) m.change_logs else m.change_logs
])

abbrev pub total_length : List (List SessionSnapshot) → ℕ
total_length [] = 0
total_length (xs ∷ rest) = length xs + total_length rest

pub record Statistics : Type 0 where
  pub total_sessions : ℕ
  pub sessions_by_status : Dict String ℕ
  pub sessions_by_type : Dict String ℕ
  pub total_snapshots : ℕ
  pub total_change_logs : ℕ
  pub total_tenants : ℕ
  pub default_ttl : Option ℕ

unfoldable pub get_statistics : SessionStateManager → Statistics
get_statistics m = record {
  total_sessions = length m.sessions;
  sessions_by_status = tally [] (map (λ s. status_value s.status) (values m.sessions));
  sessions_by_type = tally [] (map (λ s. s.session_type) (values m.sessions));
  total_snapshots = total_length (values m.snapshots);
  total_change_logs = length m.change_logs;
  total_tenants = length m.tenant_sessions;
  default_ttl = m.default_ttl;
}
