-- ===== src/Rules/Aftermath.antt =====
-- evolution/defense_rule_persistence.py: the state after a circuit broke.
use photon_kernel_sil.Prelude.{
  ℕ, ◌+◌, String, true, false, ◌==◌, [], Option, none, some, ◌≡◌, ◌⊎◌, inl, inr, refl, sym, ap, ◌∙◌,
  subst, arith, nat_eq, string_eq, ==_iff, Bool-cases, Option-cases, if-true, if-false,
}
use photon_kernel_sil.Prelude.Dict.{get, get_or, put, get-put_self, delete, get-delete}
use photon_kernel_sil.Rules.Types.{
  rule_state_eq, RuleState-discrete, active, circuit_broken, opened, circuit_state_eq, RuleVersion,
  DefenseRulePersistence, World,
}
use photon_kernel_sil.Rules.Places.{at}
use photon_kernel_sil.Rules.Versions.{version_at, update_stats}
use photon_kernel_sil.Rules.Circuit.{
  active_version, store, last_active, restored, rollback_to_previous, trigger_circuit_break,
  tripped, record_failure,
}
use photon_kernel_sil.Rules.Active.{
  active_version-found, active_version-parts, version_at-store, failed_once, record_failure-active,
}
use photon_kernel_sil.Rules.Recovery.{last_active-IsPrevious}

-- A version that is ACTIVE after another one took a place, where that one is not ACTIVE: it stands at
-- another place, and it stood there before.
other_place :
    (m : DefenseRulePersistence) (rule_id : String) (i j : ℕ) (u v x : RuleVersion)
    → version_at m.rules rule_id i ≡ some u
    → version_at (store rule_id i v m).rules rule_id j ≡ some x
    → (v.state == active) ≡ false
    → x.state ≡ active
    → ((i == j) ≡ false) × (version_at m.rules rule_id j ≡ some x)
other_place m rule_id i j u v x here there other fine =
    let after = sym (version_at-store m.rules rule_id rule_id i j u v here) ∙ there in
    let same_id = (==_iff rule_id rule_id).1 refl in
    elim (Bool-cases (i == j)) [
      | inl e ↦
          let same_version : v ≡ x = ground (arith, after, e, same_id) in
          absurd
            (ground (arith, other, ap (λ y. y.state) same_version, fine, ==_iff v.state active))
      | inr e ↦ (e, ground (arith, after, e, same_id))
    ]

-- What a rollback comes to: nothing, or an earlier version that was ACTIVE and is active again
pub data RolledBack (m : DefenseRulePersistence) (rule_id : String)
    (z : DefenseRulePersistence × Option RuleVersion) : Type 0 where
  unchanged : z.0 ≡ m → z.1 ≡ none → RolledBack m rule_id z
  back_to :
      (j : ℕ) (v : RuleVersion)
      → version_at m.rules rule_id j ≡ some v
      → v.state ≡ active
      → z.0.rules ≡ (store rule_id j (restored v) m).rules
      → z.0.active_versions ≡ put m.active_versions rule_id j
      → z.0.file ≡ m.file
      → z.1 ≡ some (restored v)
      → RolledBack m rule_id z

pub rollback_to_previous-RolledBack :
    (m : DefenseRulePersistence) (rule_id : String)
    → RolledBack m rule_id (rollback_to_previous m rule_id)
unfolding rollback_to_previous version_at
rollback_to_previous-RolledBack m rule_id =
    elim (Option-cases (last_active 0 (get_or m.rules rule_id []))) [
      | inl e ↦ rw (e, rollback_to_previous) (unchanged refl refl)
      | inr (j, e) ↦
          let p = last_active-IsPrevious (get_or m.rules rule_id []) 0 j e in
          let there : version_at m.rules rule_id j ≡ some p.version =
            ap (at (get_or m.rules rule_id [])) (omega (arith, p.counted)) ∙ p.found in
          rw (e, rollback_to_previous, there)
            (back_to j p.version there p.stable refl refl refl refl)
    ]

pub RolledBack-active :
    (m : DefenseRulePersistence) (rule_id : String)
    (z : DefenseRulePersistence × Option RuleVersion)
    → RolledBack m rule_id z
    → (get z.0.active_versions rule_id ≡ get m.active_versions rule_id)
      ⊎ ((j : ℕ) × (v : RuleVersion) × (version_at m.rules rule_id j ≡ some v)
          × (v.state ≡ active)
          × (active_version z.0 rule_id ≡ some (j, restored v)))
RolledBack-active m rule_id z (unchanged e f) = inl (ap (λ k. get k.active_versions rule_id) e)
RolledBack-active m rule_id z (back_to j v there s e f g h) = inr (
  j,
  v,
  there,
  s,
  active_version-found z.0 rule_id j (restored v)
      (ap (λ d. get d rule_id) f ∙ get-put_self m.active_versions rule_id j)
      (ap (λ d. version_at d rule_id j) e
        ∙ ground (
          arith,
          version_at-store m.rules rule_id rule_id j j v (restored v) there,
          ==_iff rule_id rule_id,
        )),
)

RolledBack-file :
    (m : DefenseRulePersistence) (rule_id : String)
    (z : DefenseRulePersistence × Option RuleVersion)
    → RolledBack m rule_id z
    → z.0.file ≡ m.file
RolledBack-file m rule_id z (unchanged e f) = ap (λ k. k.file) e
RolledBack-file m rule_id z (back_to j v there s e f g h) = g

-- The state after the circuit broke of the version at the place i
record Broke (m m' : DefenseRulePersistence) (rule_id : String) (i : ℕ) : Type 0 where
  pub next_version :
      (get m'.active_versions rule_id ≡ none)
      ⊎ ((j : ℕ) × (v : RuleVersion) × ((i == j) ≡ false)
          × (version_at m.rules rule_id j ≡ some v)
          × (v.state ≡ active)
          × (active_version m' rule_id ≡ some (j, restored v)))
  pub unsaved : m'.file ≡ m.file

trigger_circuit_break-Broke :
    (w : World) (m : DefenseRulePersistence) (rule_id : String) (i : ℕ) (v : RuleVersion)
    → version_at m.rules rule_id i ≡ some v
    → Broke m (trigger_circuit_break w m rule_id i v) rule_id i
unfolding trigger_circuit_break update_stats active_version RuleState-discrete
trigger_circuit_break-Broke w m rule_id i v here =
    let v' = record v {
      circuit_state = opened;
      state = circuit_broken;
      last_state_change = w.clock 1;
    } in
    let m1 = record (store rule_id i v' m) {
      stats = record m.stats { circuit_breaker_triggers = m.stats.circuit_breaker_triggers + 1 };
      active_versions = delete m.active_versions rule_id;
    } in
    let gone : get m1.active_versions rule_id ≡ none =
      ground (arith, get-delete m.active_versions rule_id rule_id, ==_iff rule_id rule_id) in
    let z = rollback_to_previous m1 rule_id in
    let r = rollback_to_previous-RolledBack m1 rule_id in
    let broke = λ (k : DefenseRulePersistence). Broke m (update_stats k) rule_id i in
    elim (Bool-cases m.auto_rollback_on_circuit_break) [
      | inl e ↦ subst broke (sym (if-true m.auto_rollback_on_circuit_break z.0 m1 e)) (record {
        next_version = elim (RolledBack-active m1 rule_id z r) [
          | inl f ↦ inl (f ∙ gone)
          | inr (j, x, there, fine, found) ↦
              let (other, before) = other_place m rule_id i j v v' x here there refl fine in
              inr (j, x, other, before, fine, found)
        ];
        unsaved = RolledBack-file m1 rule_id z r;
      })
      | inr e ↦
          subst broke (sym (if-false m.auto_rollback_on_circuit_break z.0 m1 e))
            (record { next_version = inl gone; unsaved = refl })
    ]

failed-Broke :
    (m m' : DefenseRulePersistence) (rule_id : String) (i : ℕ) (u v : RuleVersion)
    → version_at m.rules rule_id i ≡ some u
    → Broke (store rule_id i v m) m' rule_id i
    → Broke m m' rule_id i
failed-Broke m m' rule_id i u v here b = record {
  next_version = elim b.next_version [
    | inl gone ↦ inl gone
    | inr (j, x, other, there, fine, found) ↦
        let before : version_at m.rules rule_id j ≡ some x =
          ground (arith, version_at-store m.rules rule_id rule_id i j u v here, other, there) in
        inr (j, x, other, before, fine, found)
  ];
  unsaved = b.unsaved;
}

-- Where `record_failure` says that the circuit broke, the version at some place i was the active one.
-- Then the rule has no active version any more, or the active version is now one at another place
-- that was ACTIVE there before the failure, and is so with a closed circuit and no failures. The file
-- is as it was, also where the changes are to be written at once.
pub record_failure_broke :
    (w : World) (m : DefenseRulePersistence) (rule_id : String)
    → (record_failure w m rule_id).1 ≡ true
    → (i : ℕ) × (get m.active_versions rule_id ≡ some i)
      × ((get (record_failure w m rule_id).0.active_versions rule_id ≡ none)
          ⊎ ((j : ℕ) × (v : RuleVersion) × ((i == j) ≡ false)
              × (version_at m.rules rule_id j ≡ some v)
              × (v.state ≡ active)
              × (active_version (record_failure w m rule_id).0 rule_id ≡ some (j, restored v))))
      × ((record_failure w m rule_id).0.file ≡ m.file)
unfolding record_failure
record_failure_broke w m rule_id h = elim (Option-cases (active_version m rule_id)) [
  | inl e ↦ absurd (ground (arith, h, e))
  | inr ((i, v), e) ↦
      elim (Bool-cases (tripped m.circuit_breaker_enabled (failed_once (w.clock 0) v))) [
        | inl t ↦
            let v' = failed_once (w.clock 0) v in
            let (place, here) = active_version-parts m rule_id i v e in
            let here' : version_at (store rule_id i v' m).rules rule_id i ≡ some v' = ground (
              arith,
              version_at-store m.rules rule_id rule_id i i v v' here,
              ==_iff rule_id rule_id,
            ) in
            let b =
              failed-Broke m _ rule_id i v v' here
                (trigger_circuit_break-Broke w (store rule_id i v' m) rule_id i v' here') in
            rw (e, t, record_failure) (i, place, b.next_version, b.unsaved)
        | inr t ↦ absurd (ground (arith, h, (record_failure-active w m rule_id i v e t).1))
      ]
]
