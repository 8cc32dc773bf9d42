-- ===== src/Rules/States.antt =====
-- What holds of the rules of defence in every state that they can get to.
use photon_kernel_sil.Prelude.{
  ℕ, ◌+◌, String, Bool, false, List, [], ◌∷◌, All, Option, none, some, ◌≡◌, inl, inr, refl, sym,
  ◌∙◌, subst, arith, ◌==◌, nat_eq, string_eq, ==_iff, Bool-cases, Option-cases, if-true, if-false,
}
use photon_kernel_sil.Prelude.Dict.{Dict, get, get_or, put, delete, get-delete}
use photon_kernel_sil.Rules.Types.{
  rule_state_eq, RuleState-discrete, circuit_broken, CircuitBreakerState-discrete, opened,
  circuit_state_eq, RuleVersion, DefenseRulePersistence, World,
}
use photon_kernel_sil.Rules.Places.{set_at}
use photon_kernel_sil.Rules.Versions.{
  new_persistence, version_at, update_stats, load, total, sum_of,
}
use photon_kernel_sil.Rules.Circuit.{
  active_version, store, restored, rollback_to_previous, trigger_circuit_break, tripped,
  record_failure, is_circuit_broken, rollback_rule, get_stats,
}
use photon_kernel_sil.Rules.Active.{active_version-found, version_at-store, failed_once}
use photon_kernel_sil.Rules.Upkeep.{
  Good, Unique-put, AllGood, version_at-Good, store-AllGood, Actives, point-Actives,
}
use photon_kernel_sil.Rules.Saving.{load_rules, all_running}
use photon_kernel_sil.Rules.Reloading.{load_rules-AllGood, load_rules-Unique}
use photon_kernel_sil.Rules.Rerunning.{all_running-Actives}
use photon_kernel_sil.Rules.Aftermath.{
  RolledBack, unchanged, back_to, rollback_to_previous-RolledBack,
}
use photon_kernel_sil.Rules.Invariant.{
  Operation, deploys, triggers_rule, fails_rule, rolls_back, tries_again, persists, loads,
  reads_stats, step, Reachable, initial, after, IsConsistent, same-IsConsistent,
  persist-IsConsistent, auto_persisted-IsConsistent, store-IsConsistent,
}
use photon_kernel_sil.Rules.Upholding.{
  deploy_rule-IsConsistent, record_trigger-IsConsistent, attempt_half_open-IsConsistent,
  active_version-opened,
}

RolledBack-IsConsistent :
    (m : DefenseRulePersistence) (rule_id : String)
    (z : DefenseRulePersistence × Option RuleVersion)
    → RolledBack m rule_id z
    → IsConsistent m
    → IsConsistent z.0
unfolding RuleState-discrete CircuitBreakerState-discrete
RolledBack-IsConsistent m rule_id z (unchanged e f) c = subst IsConsistent (sym e) c
RolledBack-IsConsistent m rule_id z (back_to j v there s e f g h) c =
    let (a, _, b) = version_at-Good m.rules rule_id j v c.versions there in
    let k = store-IsConsistent m rule_id j v (restored v) c there (a, refl, b) refl in
    let there' : version_at (store rule_id j (restored v) m).rules rule_id j ≡ some (restored v) =
      ground (
        arith,
        version_at-store m.rules rule_id rule_id j j v (restored v) there,
        ==_iff rule_id rule_id,
      ) in
    same-IsConsistent
      (record (store rule_id j (restored v) m) {
        active_versions = put m.active_versions rule_id j;
      })
      z.0 e f g
      (record {
        versions = k.versions;
        unique = k.unique;
        actives =
            point-Actives (store rule_id j (restored v) m).rules m.active_versions rule_id j
              (restored v) k.actives there' refl;
        filed = k.filed;
      })

-- A broken version is stored, and its rule has no active version.
opened-Actives :
    (rules : Dict String (List RuleVersion)) (active_versions : Dict String ℕ) (rule_id : String)
    (i : ℕ) (u v : RuleVersion)
    → Actives rules active_versions
    → version_at rules rule_id i ≡ some u
    → Actives
        (put rules rule_id (set_at (get_or rules rule_id []) i v))
        (delete active_versions rule_id)
opened-Actives rules active_versions rule_id i u v h there id j e =
    let found = sym (get-delete active_versions rule_id id) ∙ e in
    let now = version_at-store rules rule_id id i j u v there in
    elim (Bool-cases (rule_id == id)) [
      | inl q ↦ absurd (ground (arith, found, q))
      | inr q ↦
          let (t, f, g) = h id j (ground (arith, found, q)) in (t, ground (arith, now, q, f), g)
    ]

trigger_circuit_break-IsConsistent :
    (w : World) (m : DefenseRulePersistence) (rule_id : String) (i : ℕ) (v : RuleVersion)
    → IsConsistent m
    → version_at m.rules rule_id i ≡ some v
    → IsConsistent (trigger_circuit_break w m rule_id i v)
unfolding trigger_circuit_break update_stats RuleState-discrete CircuitBreakerState-discrete
trigger_circuit_break-IsConsistent w m rule_id i v c there =
    let v' = record v {
      circuit_state = opened;
      state = circuit_broken;
      last_state_change = w.clock 1;
    } in
    let m1 = record (store rule_id i v' m) {
      stats = record m.stats { circuit_breaker_triggers = m.stats.circuit_breaker_triggers + 1 };
      active_versions = delete m.active_versions rule_id;
    } in
    let (a, _, b) = version_at-Good m.rules rule_id i v c.versions there in
    let c1 : IsConsistent m1 = record {
      versions = store-AllGood m.rules rule_id i v' c.versions (a, refl, b);
      unique = Unique-put m.rules rule_id _ c.unique;
      actives = opened-Actives m.rules m.active_versions rule_id i v v' c.actives there;
      filed = c.filed;
    } in
    let z = rollback_to_previous m1 rule_id in
    let kept = λ (k : DefenseRulePersistence). IsConsistent (update_stats k) in
    let counted = λ (k : DefenseRulePersistence) (h : IsConsistent k).
      same-IsConsistent k (update_stats k) refl refl refl h in
    elim (Bool-cases m.auto_rollback_on_circuit_break) [
      | inl e ↦ subst kept (sym (if-true m.auto_rollback_on_circuit_break z.0 m1 e)) (
          counted z.0
            (RolledBack-IsConsistent m1 rule_id z (rollback_to_previous-RolledBack m1 rule_id) c1))
      | inr e ↦
          subst kept (sym (if-false m.auto_rollback_on_circuit_break z.0 m1 e)) (counted m1 c1)
    ]

record_failure-IsConsistent :
    (w : World) (m : DefenseRulePersistence) (rule_id : String)
    → IsConsistent m
    → IsConsistent (record_failure w m rule_id).0
unfolding record_failure
record_failure-IsConsistent w m rule_id c = elim (Option-cases (active_version m rule_id)) [
  | inl e ↦ rw (e, record_failure) c
  | inr ((i, v), e) ↦
      let (there, good, fine) = active_version-opened m rule_id i v c e in
      let v' = failed_once (w.clock 0) v in
      let s = store-IsConsistent m rule_id i v v' c there good fine in
      let there' : version_at (store rule_id i v' m).rules rule_id i ≡ some v' =
        ground (
          arith,
          version_at-store m.rules rule_id rule_id i i v v' there,
          ==_iff rule_id rule_id,
        ) in
      elim (Bool-cases (tripped m.circuit_breaker_enabled v')) [
        | inl t ↦
            rw (e, t, record_failure)
              (trigger_circuit_break-IsConsistent w (store rule_id i v' m) rule_id i v' s there')
        | inr t ↦
            rw (e, t, record_failure) (auto_persisted-IsConsistent w 1 (store rule_id i v' m) s)
      ]
]

rollback_rule-IsConsistent :
    (w : World) (m : DefenseRulePersistence) (rule_id : String)
    → IsConsistent m
    → IsConsistent (rollback_rule w m rule_id).0
unfolding rollback_rule
rollback_rule-IsConsistent w m rule_id c =
    let z = rollback_to_previous m rule_id in
    let k = RolledBack-IsConsistent m rule_id z (rollback_to_previous-RolledBack m rule_id) c in
    elim (Option-cases z.1) [
      | inl e ↦ rw (e, rollback_rule) k
      | inr (v, e) ↦ rw (e, rollback_rule) (auto_persisted-IsConsistent w 0 z.0 k)
    ]

load-IsConsistent :
    (json : String → String) (m : DefenseRulePersistence)
    → IsConsistent m
    → IsConsistent (load json m).0
unfolding load
load-IsConsistent json m c = elim (Option-cases m.file) [
  | inl e ↦ rw (e, load) c
  | inr (state, e) ↦
      let (good, unique) = c.filed state e in
      let rules = (load_rules json state.rules).0 in
      let good' = load_rules-AllGood json state.rules good in
      let unique' = load_rules-Unique json state.rules unique in
      let c' : IsConsistent (record m { rules = rules; active_versions = all_running rules }) =
        record {
          versions = good';
          unique = unique';
          actives = all_running-Actives rules unique' good';
          filed = c.filed;
        } in
      elim (Bool-cases (load_rules json state.rules).1) [
        | inl f ↦ rw (e, load, f) (same-IsConsistent _ _ refl refl refl c')
        | inr f ↦ rw (e, load, f) c'
      ]
]

step-IsConsistent :
    (m : DefenseRulePersistence) (o : Operation) → IsConsistent m → IsConsistent (step m o)
unfolding step get_stats update_stats
step-IsConsistent m (deploys w rule_id config deployed_by) c =
    deploy_rule-IsConsistent w m rule_id config deployed_by c
step-IsConsistent m (triggers_rule w rule_id blocked) c =
    record_trigger-IsConsistent w m rule_id blocked c
step-IsConsistent m (fails_rule w rule_id) c = record_failure-IsConsistent w m rule_id c
step-IsConsistent m (rolls_back w rule_id) c = rollback_rule-IsConsistent w m rule_id c
step-IsConsistent m (tries_again w rule_id) c = attempt_half_open-IsConsistent w m rule_id c
step-IsConsistent m (persists w) c = persist-IsConsistent w 0 m c
step-IsConsistent m (loads json) c = load-IsConsistent json m c
step-IsConsistent m reads_stats c = same-IsConsistent m (update_stats m) refl refl refl c

-- An object as it is constructed, where there is no file yet
abbrev pub fresh : Bool → Bool → Bool → DefenseRulePersistence
fresh auto_persist auto_rollback enabled = new_persistence auto_persist auto_rollback enabled none

Reachable-IsConsistent :
    (auto_persist auto_rollback enabled : Bool) (m : DefenseRulePersistence)
    → Reachable (fresh auto_persist auto_rollback enabled) m
    → IsConsistent m
unfolding get
Reachable-IsConsistent auto_persist auto_rollback enabled _ initial = record {
  versions = tt;
  unique = tt;
  actives = λ id i e. absurd (ground (arith, e));
  filed = λ state e. absurd (ground (arith, e));
}
Reachable-IsConsistent auto_persist auto_rollback enabled _ (after m o r) =
    step-IsConsistent m o (Reachable-IsConsistent auto_persist auto_rollback enabled m r)

-- In every state that the rules can get to, restarts from the file included, the active version of a
-- rule is one of its versions, stands under the rule's id, and its circuit is not open: a rule with
-- an active version is not reported as broken.
pub is_circuit_broken_lem :
    (auto_persist auto_rollback enabled : Bool) (m : DefenseRulePersistence) (rule_id : String)
    (i : ℕ)
    → Reachable (fresh auto_persist auto_rollback enabled) m
    → get m.active_versions rule_id ≡ some i
    → (v : RuleVersion) × (version_at m.rules rule_id i ≡ some v)
      × (v.rule_id ≡ rule_id)
      × (is_circuit_broken m rule_id ≡ false)
unfolding is_circuit_broken
is_circuit_broken_lem auto_persist auto_rollback enabled m rule_id i r e =
    let c = Reachable-IsConsistent auto_persist auto_rollback enabled m r in
    let (v, f, g) = c.actives rule_id i e in
    (
      v,
      f,
      (version_at-Good m.rules rule_id i v c.versions f).0,
      rw (active_version-found m rule_id i v e f, is_circuit_broken) g,
    )

sums-Good :
    (id : String) (versions : List RuleVersion)
    → All (Good id) versions
    → sum_of (λ v. v.trigger_count) versions
      ≡ sum_of (λ v. v.block_count) versions + sum_of (λ v. v.false_positive_count) versions
sums-Good id [] h = omega arith
sums-Good id (v ∷ versions) h = omega (arith, sums-Good id versions h.1, h.0.2)

totals-AllGood :
    (rules : Dict String (List RuleVersion))
    → AllGood rules
    → total (sum_of (λ v. v.trigger_count)) rules
      ≡ total (sum_of (λ v. v.block_count)) rules
        + total (sum_of (λ v. v.false_positive_count)) rules
totals-AllGood [] h = omega arith
totals-AllGood ((id, versions) ∷ rules) h =
    omega (arith, sums-Good id versions h.0, totals-AllGood rules h.1)

-- In every state that the rules can get to, the triggers that the statistics report are the blocks and
-- the false positives that they report, taken together.
pub get_stats_lem :
    (auto_persist auto_rollback enabled : Bool) (m : DefenseRulePersistence)
    → Reachable (fresh auto_persist auto_rollback enabled) m
    → let stats = (get_stats m).1 in
      stats.total_triggers ≡ stats.total_blocks + stats.total_false_positives
unfolding get_stats update_stats
get_stats_lem auto_persist auto_rollback enabled m r =
    totals-AllGood m.rules (Reachable-IsConsistent auto_persist auto_rollback enabled m r).versions
