-- ===== src/Sessions/Tenants.antt =====
-- The sessions of a tenant over the histories of a manager.
use photon_kernel_sil.Prelude.{
  ℕ, String, Bool, true, false, ◌&&◌, List, [], ◌∷◌, Option, none, some, ◌≡◌, inl, inr, refl, ap,
  ◌∙◌, arith, ◌==◌, string_eq, ==_iff, any, Option-cases,
}
use photon_kernel_sil.Prelude.Dict.{Dict, get, get_or}
use photon_kernel_sil.Prelude.Sorting.{any-sort_by}
use photon_kernel_sil.Sessions.Types.{SessionState, SessionStateManager}
use photon_kernel_sil.Sessions.Queries.{of_tenant, newer, list_sessions_by_tenant}
use photon_kernel_sil.Sessions.Files.{new_manager, load_files}
use photon_kernel_sil.Sessions.Runs.{step, Reachable, initial, after}
use photon_kernel_sil.Sessions.Effects.{Moves, none_yet, next}
use photon_kernel_sil.Sessions.Steps.{step-Moves}
use photon_kernel_sil.Sessions.Invariant.{IsIndexed, Move-IsIndexed, owned}

Moves-IsIndexed :
    (tenant : Option String) (m m' : SessionStateManager)
    → Moves tenant m m'
    → IsIndexed m
    → IsIndexed m'
Moves-IsIndexed tenant m m' none_yet v = v
Moves-IsIndexed tenant m m' (next k _ moves move) v =
    Move-IsIndexed tenant k m' move (Moves-IsIndexed tenant m k moves v)

-- A manager in memory
abbrev pub empty_manager : Option ℕ → ℕ → Bool → SessionStateManager
empty_manager default_ttl max_snapshots enable_audit_log =
    new_manager none default_ttl max_snapshots enable_audit_log

empty-IsIndexed :
    (ttl : Option ℕ) (max : ℕ) (audit : Bool) → IsIndexed (empty_manager ttl max audit)
unfolding new_manager load_files get get_or
empty-IsIndexed ttl max audit = record { filed = λ id s g. cc; agree = λ t id. refl }

pub Reachable-IsIndexed :
    (safe_id : String → String) (ttl : Option ℕ) (max : ℕ) (audit : Bool) (m : SessionStateManager)
    → Reachable safe_id (empty_manager ttl max audit) m
    → IsIndexed m
Reachable-IsIndexed safe_id ttl max audit _ initial = empty-IsIndexed ttl max audit
Reachable-IsIndexed safe_id ttl max audit _ (after m o r fresh) =
    Moves-IsIndexed _ m (step safe_id m o) (step-Moves safe_id m o fresh)
      (Reachable-IsIndexed safe_id ttl max audit m r)

abbrev owned_by_someone : Option SessionState → Bool
owned_by_someone none = false
owned_by_someone (some s) = true

any-of_tenant :
    (sessions : Dict String SessionState) (ids : List String) (id : String)
    → ((j : String) (s : SessionState) → get sessions j ≡ some s → s.session_id ≡ j)
    → any (λ s. s.session_id == id) (of_tenant sessions none none ids)
      ≡ (any (λ i. i == id) ids && owned_by_someone (get sessions id))
unfolding of_tenant
any-of_tenant sessions [] id filed = refl
any-of_tenant sessions (i ∷ ids) id filed = elim (Option-cases (get sessions i)) [
  | inl e ↦ ground (arith, any-of_tenant sessions ids id filed, ap owned_by_someone e, ==_iff i id)
  | inr (s, e) ↦
      ground (
        arith,
        any-of_tenant sessions ids id filed,
        filed i s e,
        ap owned_by_someone e,
        ==_iff i id,
      )
]

-- In every state that a manager in memory can get to, where new uuids are new, the list of a
-- tenant's sessions has exactly the sessions that the tenant owns, each found under its own id.
pub list_sessions_by_tenant_lem :
    (safe_id : String → String) (ttl : Option ℕ) (max : ℕ) (audit : Bool) (m : SessionStateManager)
    (tenant_id id : String)
    → Reachable safe_id (empty_manager ttl max audit) m
    → any (λ s. s.session_id == id) (list_sessions_by_tenant m tenant_id none none)
      ≡ owned (get m.sessions id) tenant_id
unfolding list_sessions_by_tenant
list_sessions_by_tenant_lem safe_id ttl max audit m tenant_id id r =
    let v = Reachable-IsIndexed safe_id ttl max audit m r in
    let ids = get_or m.tenant_sessions tenant_id [] in
    any-sort_by newer (λ s. s.session_id == id) (of_tenant m.sessions none none ids)
    ∙ any-of_tenant m.sessions ids id v.filed
    ∙ ground (arith, v.agree tenant_id id)
