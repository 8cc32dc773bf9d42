-- ===== src/Rules/Circuit.antt =====
-- evolution/defense_rule_persistence.py: the circuit breaker of a rule.
use photon_kernel_sil.Prelude.{
  ℕ, suc, ◌+◌, ◌*◌, String, Bool, true, false, ◌&&◌, List, [], ◌∷◌, Option, none, some, leb, ◌==◌,
  string_eq, any, length, if◌then◌else◌,
}
use photon_kernel_sil.Prelude.Dict.{Dict, get, get_or, put, delete}
use photon_kernel_sil.Rules.Types.{
  rule_state_eq, monitoring, active, circuit_broken, closed, opened, half_open, circuit_state_eq,
  RuleVersion, PersistenceStats, DefenseRulePersistence, World,
}
use photon_kernel_sil.Rules.Places.{set_at}
use photon_kernel_sil.Rules.Versions.{version_at, update_stats, auto_persisted}

-- The active version of a rule, with its place
unfoldable pub active_version : DefenseRulePersistence → String → Option (ℕ × RuleVersion)
unfolding version_at
active_version m rule_id = elim (get m.active_versions rule_id) [
  | none ↦ none
  | some i ↦ elim (version_at m.rules rule_id i) [ none ↦ none | some v ↦ some (i, v) ]
]

-- A change of the version at a place
abbrev pub store : String → ℕ → RuleVersion → DefenseRulePersistence → DefenseRulePersistence
store rule_id i v m = record m {
  rules = put m.rules rule_id (set_at (get_or m.rules rule_id []) i v);
}

abbrev pub triggered : Bool → RuleVersion → RuleVersion
triggered blocked v =
    if blocked
    then record v { trigger_count = v.trigger_count + 1; block_count = v.block_count + 1 }
    else record v {
      trigger_count = v.trigger_count + 1;
      false_positive_count = v.false_positive_count + 1;
    }

-- The success rate is at least 0.8, after ten triggers.
abbrev pub proven : RuleVersion → Bool
proven v =
    (v.state == monitoring)
    && (leb 10 v.trigger_count && leb (4 * v.trigger_count) (5 * v.block_count))

unfoldable pub record_trigger :
    World → DefenseRulePersistence → String → Bool → DefenseRulePersistence
unfolding update_stats
record_trigger w m rule_id blocked = elim (active_version m rule_id) [
  | none ↦ m
  | some (i, v) ↦
      let v1 = triggered blocked v in
      let v2 =
        if proven v1 then record v1 { state = active; last_state_change = w.clock 0 } else v1 in
      auto_persisted w 1 (update_stats (store rule_id i v2 m))
]

-- The place of the last version but the newest that is ACTIVE, counted from n
unfoldable pub last_active : ℕ → List RuleVersion → Option ℕ
last_active n [] = none
last_active n (v ∷ []) = none
last_active n (v ∷ u ∷ versions) = elim (last_active (suc n) (u ∷ versions)) [
  | none ↦ if v.state == active then some n else none
  | some i ↦ some i
]

abbrev pub restored : RuleVersion → RuleVersion
restored v = record v { state = active; circuit_state = closed; failure_count = 0 }

-- `_rollback_to_previous`
unfoldable pub rollback_to_previous :
    DefenseRulePersistence → String → DefenseRulePersistence × Option RuleVersion
unfolding last_active
rollback_to_previous m rule_id = elim (last_active 0 (get_or m.rules rule_id [])) [
  | none ↦ (m, none)
  | some i ↦ elim (version_at m.rules rule_id i) [
    | none ↦ (m, none)
    | some v ↦ (
      record (store rule_id i (restored v) m) {
        active_versions = put m.active_versions rule_id i;
        stats = record m.stats { auto_rollbacks = m.stats.auto_rollbacks + 1 };
      },
      some (restored v),
    )
  ]
]

-- `_trigger_circuit_break`, of the version at a place of a rule. The rule of a version is the one
-- under whose id it stands.
unfoldable pub trigger_circuit_break :
    World → DefenseRulePersistence → String → ℕ → RuleVersion → DefenseRulePersistence
unfolding update_stats rollback_to_previous
trigger_circuit_break w m rule_id i v =
    let v' = record v {
      circuit_state = opened;
      state = circuit_broken;
      last_state_change = w.clock 1;
    } in
    let m1 = record (store rule_id i v' m) {
      stats = record m.stats { circuit_breaker_triggers = m.stats.circuit_breaker_triggers + 1 };
      active_versions = delete m.active_versions rule_id;
    } in
    update_stats
      (if m.auto_rollback_on_circuit_break then (rollback_to_previous m1 rule_id).0 else m1)

-- The failures are enough to break the circuit.
abbrev pub tripped : Bool → RuleVersion → Bool
tripped enabled v =
    enabled && ((v.circuit_state == closed) && leb v.failure_threshold v.failure_count)

unfoldable pub record_failure :
    World → DefenseRulePersistence → String → DefenseRulePersistence × Bool
unfolding trigger_circuit_break
record_failure w m rule_id = elim (active_version m rule_id) [
  | none ↦ (m, false)
  | some (i, v) ↦
      let v' = record v { failure_count = v.failure_count + 1; last_failure_time = w.clock 0 } in
      if tripped m.circuit_breaker_enabled v'
      then (trigger_circuit_break w (store rule_id i v' m) rule_id i v', true)
      else (auto_persisted w 1 (store rule_id i v' m), false)
]

unfoldable pub rollback_rule :
    World → DefenseRulePersistence → String → DefenseRulePersistence × Option RuleVersion
rollback_rule w m rule_id =
    let (m', result) = rollback_to_previous m rule_id in
    elim result [ none ↦ (m', none) | some v ↦ (auto_persisted w 0 m', some v) ]

unfoldable pub is_circuit_broken : DefenseRulePersistence → String → Bool
unfolding active_version
is_circuit_broken m rule_id = elim (active_version m rule_id) [
  | none ↦ any (λ v. v.state == circuit_broken) (get_or m.rules rule_id [])
  | some (i, v) ↦ v.circuit_state == opened
]

-- The version may be tried again at a time.
abbrev pub cooled : ℕ → RuleVersion → Bool
cooled now v =
    (v.state == circuit_broken)
    && ((v.circuit_state == opened) && leb (v.last_failure_time + v.cooldown_seconds * 1000000) now)

-- The first version that may be tried again, with its place, counted from n. The clock is read for
-- each version.
unfoldable pub first_cooled : (ℕ → ℕ) → ℕ → List RuleVersion → Option (ℕ × RuleVersion)
first_cooled clock n [] = none
first_cooled clock n (v ∷ versions) =
    let rest = first_cooled clock (suc n) versions in
    if cooled (clock n) v then some (n, v) else rest

unfoldable pub attempt_half_open :
    World → DefenseRulePersistence → String → DefenseRulePersistence × Bool
unfolding first_cooled
attempt_half_open w m rule_id = elim (first_cooled w.clock 0 (get_or m.rules rule_id [])) [
  | none ↦ (m, false)
  | some (i, v) ↦
      let v' = record v { circuit_state = half_open; success_count = 0; failure_count = 0 } in
      let m' = record (store rule_id i v' m) {
        active_versions = put m.active_versions rule_id i;
      } in
      (auto_persisted w (length (get_or m.rules rule_id [])) m', true)
]

-- `get_active_rules`, the versions under the places
unfoldable pub get_active_rules : DefenseRulePersistence → List RuleVersion
get_active_rules m = versions_of m.active_versions
  where
    versions_of : Dict String ℕ → List RuleVersion
    versions_of [] = []
    versions_of ((rule_id, i) ∷ rest) = elim (version_at m.rules rule_id i) [
      | none ↦ versions_of rest
      | some v ↦ v ∷ versions_of rest
    ]

unfoldable pub get_rule_versions : DefenseRulePersistence → String → List RuleVersion
get_rule_versions m rule_id = get_or m.rules rule_id []

unfoldable pub get_stats : DefenseRulePersistence → DefenseRulePersistence × PersistenceStats
get_stats m = let m' = update_stats m in (m', m'.stats)
