-- ===== src/Rules/Active.antt =====
-- evolution/defense_rule_persistence.py: the active version of a rule after triggers and failures.
use photon_kernel_sil.Prelude.{
  ℕ, ◌+◌, String, Bool, false, ◌&&◌, List, [], Option, none, some, ◌≡◌, inl, inr, refl, sym, ap,
  ◌∙◌, arith, ◌==◌, nat_eq, string_eq, ==_iff, Option-cases, if◌then◌else◌,
}
use photon_kernel_sil.Prelude.Dict.{Dict, get, get_or, put, get_or-put}
use photon_kernel_sil.Rules.Types.{
  rule_state_eq, active, circuit_state_eq, RuleVersion, DefenseRulePersistence, World,
}
use photon_kernel_sil.Rules.Places.{at, set_at, at-set_at}
use photon_kernel_sil.Rules.Versions.{version_at, update_stats, persist, auto_persisted}
use photon_kernel_sil.Rules.Circuit.{
  active_version, store, triggered, proven, record_trigger, tripped, record_failure,
}

-- Writing the file leaves the versions and the switches.
pub auto_persisted-rest :
    (w : World) (k : ℕ) (m : DefenseRulePersistence)
    → ((auto_persisted w k m).rules ≡ m.rules)
      × ((auto_persisted w k m).active_versions ≡ m.active_versions)
      × ((auto_persisted w k m).circuit_breaker_enabled ≡ m.circuit_breaker_enabled)
unfolding persist
auto_persisted-rest w k m = ground arith

-- The active version with its place, from its parts
pub active_version-found :
    (m : DefenseRulePersistence) (rule_id : String) (i : ℕ) (v : RuleVersion)
    → get m.active_versions rule_id ≡ some i
    → version_at m.rules rule_id i ≡ some v
    → active_version m rule_id ≡ some (i, v)
unfolding active_version
active_version-found m rule_id i v e f = rw (e, active_version, f) refl

abbrev place : Option (ℕ × RuleVersion) → Option ℕ
place none = none
place (some (i, v)) = some i

abbrev version : Option (ℕ × RuleVersion) → Option RuleVersion
version none = none
version (some (i, v)) = some v

pub active_version-parts :
    (m : DefenseRulePersistence) (rule_id : String) (i : ℕ) (v : RuleVersion)
    → active_version m rule_id ≡ some (i, v)
    → (get m.active_versions rule_id ≡ some i) × (version_at m.rules rule_id i ≡ some v)
unfolding active_version
active_version-parts m rule_id i v h = elim (Option-cases (get m.active_versions rule_id)) [
  | inl e ↦ absurd (ground (arith, h, e))
  | inr (j, e) ↦ elim (Option-cases (version_at m.rules rule_id j)) [
    | inl f ↦ absurd (ground (arith, h, e, f))
    | inr (u, f) ↦
        let p : some (j, u) ≡ some (i, v) = sym (active_version-found m rule_id j u e f) ∙ h in
        let same_place : j ≡ i = ground (arith, ap place p) in
        (e ∙ ap place p, ap (version_at m.rules rule_id) (sym same_place) ∙ f ∙ ap version p)
  ]
]

pub version_at-store :
    (rules : Dict String (List RuleVersion)) (rule_id id : String) (i j : ℕ) (u v : RuleVersion)
    → version_at rules rule_id i ≡ some u
    → version_at (put rules rule_id (set_at (get_or rules rule_id []) i v)) id j
      ≡ (if (rule_id == id) && (i == j) then some v else version_at rules id j)
unfolding version_at
version_at-store rules rule_id id i j u v h = ground (
  arith,
  ap (λ vs. at vs j) (get_or-put rules rule_id id (set_at (get_or rules rule_id []) i v) []),
  at-set_at (get_or rules rule_id []) i j u v h,
  ==_iff rule_id id,
)

-- The active version of a rule after it was changed
pub active_version-store :
    (m m' : DefenseRulePersistence) (rule_id : String) (i : ℕ) (u v : RuleVersion)
    → active_version m rule_id ≡ some (i, u)
    → m'.rules ≡ (store rule_id i v m).rules
    → m'.active_versions ≡ m.active_versions
    → active_version m' rule_id ≡ some (i, v)
active_version-store m m' rule_id i u v h e f =
    let (a, b) = active_version-parts m rule_id i u h in
    active_version-found m' rule_id i v (ap (λ d. get d rule_id) f ∙ a) (
      ap (λ d. version_at d rule_id i) e
      ∙ ground (arith, version_at-store m.rules rule_id rule_id i i u v b, ==_iff rule_id rule_id))

-- What `record_trigger` makes of the active version
abbrev pub promoted : ℕ → RuleVersion → RuleVersion
promoted now v = if proven v then record v { state = active; last_state_change = now } else v

pub record_trigger-active :
    (w : World) (m : DefenseRulePersistence) (rule_id : String) (blocked : Bool) (i : ℕ)
    (v : RuleVersion)
    → active_version m rule_id ≡ some (i, v)
    → active_version (record_trigger w m rule_id blocked) rule_id
      ≡ some (i, promoted (w.clock 0) (triggered blocked v))
unfolding record_trigger update_stats
record_trigger-active w m rule_id blocked i v h =
    let (a, b, _) = auto_persisted-rest w 1 _ in
    rw (h, record_trigger) (active_version-store m _ rule_id i v _ h a b)

abbrev pub failed_once : ℕ → RuleVersion → RuleVersion
failed_once now v = record v { failure_count = v.failure_count + 1; last_failure_time = now }

-- A failure that does not break the circuit
pub record_failure-active :
    (w : World) (m : DefenseRulePersistence) (rule_id : String) (i : ℕ) (v : RuleVersion)
    → active_version m rule_id ≡ some (i, v)
    → tripped m.circuit_breaker_enabled (failed_once (w.clock 0) v) ≡ false
    → (active_version (record_failure w m rule_id).0 rule_id ≡ some (i, failed_once (w.clock 0) v))
      × ((record_failure w m rule_id).1 ≡ false)
      × ((record_failure w m rule_id).0.circuit_breaker_enabled ≡ m.circuit_breaker_enabled)
unfolding record_failure
record_failure-active w m rule_id i v h t =
    let (a, b, c) = auto_persisted-rest w 1 _ in
    rw (h, record_failure, t) (active_version-store m _ rule_id i v _ h a b, refl, c)
