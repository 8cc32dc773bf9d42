-- ===== src/Rules/Invariant.antt =====
-- Histories of the rules of defence, and what holds in all of them.
use photon_kernel_sil.Prelude.{
  ℕ, String, Bool, false, some, ◌≡◌, inl, inr, sym, ◌∙◌, subst, arith, ◌==◌, nat_eq, string_eq,
  Bool-cases, if-true, if-false,
}
use photon_kernel_sil.Rules.Types.{
  rule_state_eq, opened, circuit_state_eq, RuleVersion, SavedState, DefenseRulePersistence, World,
}
use photon_kernel_sil.Rules.Versions.{version_at, persist, auto_persisted, load, deploy_rule}
use photon_kernel_sil.Rules.Saving.{saved}
use photon_kernel_sil.Rules.Circuit.{
  store, record_trigger, record_failure, attempt_half_open, rollback_rule, get_stats,
}
use photon_kernel_sil.Rules.Upkeep.{
  Good, Unique, Unique-put, AllGood, store-AllGood, Actives, store-Actives,
}
use photon_kernel_sil.Rules.Reloading.{AllSavedGood, saved-AllSavedGood, saved-Unique}

pub data Operation : Type 0 where
  deploys : World → String → String → String → Operation
  triggers_rule : World → String → Bool → Operation
  fails_rule : World → String → Operation
  rolls_back : World → String → Operation
  tries_again : World → String → Operation
  persists : World → Operation
  loads : (String → String) → Operation
  reads_stats : Operation

unfoldable pub step : DefenseRulePersistence → Operation → DefenseRulePersistence
step m (deploys w rule_id config deployed_by) = (deploy_rule w m rule_id config deployed_by).0
step m (triggers_rule w rule_id blocked) = record_trigger w m rule_id blocked
step m (fails_rule w rule_id) = (record_failure w m rule_id).0
step m (rolls_back w rule_id) = (rollback_rule w m rule_id).0
step m (tries_again w rule_id) = (attempt_half_open w m rule_id).0
step m (persists w) = (persist w 0 m).0
step m (loads json) = (load json m).0
step m reads_stats = (get_stats m).0

-- The states that an object without a file at its start can get to
pub data Reachable (start : DefenseRulePersistence) : DefenseRulePersistence → Type 0 where
  initial : Reachable start start
  after :
      (m : DefenseRulePersistence) (o : Operation) → Reachable start m → Reachable start (step m o)

pub record IsConsistent (m : DefenseRulePersistence) : Type 0 where
  pub versions : AllGood m.rules
  pub unique : Unique m.rules
  pub actives : Actives m.rules m.active_versions
  pub filed :
      (state : SavedState) → m.file ≡ some state → AllSavedGood state.rules × Unique state.rules

-- Only the versions and the file count.
pub same-IsConsistent :
    (m m' : DefenseRulePersistence)
    → m'.rules ≡ m.rules
    → m'.active_versions ≡ m.active_versions
    → m'.file ≡ m.file
    → IsConsistent m
    → IsConsistent m'
same-IsConsistent m m' e f g c = record {
  versions = rw e c.versions;
  unique = rw e c.unique;
  actives =
      subst (λ r. Actives r m'.active_versions) (sym e) (subst (Actives m.rules) (sym f) c.actives);
  filed = λ state h. c.filed state (sym g ∙ h);
}

pub persist-IsConsistent :
    (w : World) (k : ℕ) (m : DefenseRulePersistence)
    → IsConsistent m
    → IsConsistent (persist w k m).0
unfolding persist
persist-IsConsistent w k m c = elim (Bool-cases w.written) [
  | inl e ↦
      rw (e, persist)
        (record {
          versions = c.versions;
          unique = c.unique;
          actives = c.actives;
          filed = λ state h.
              let same_rules : saved m.rules ≡ state.rules = ground (arith, h) in
              (
                subst AllSavedGood same_rules (saved-AllSavedGood m.rules c.versions),
                subst Unique same_rules (saved-Unique m.rules c.unique),
              );
        })
  | inr e ↦ rw (e, persist) c
]

pub auto_persisted-IsConsistent :
    (w : World) (k : ℕ) (m : DefenseRulePersistence)
    → IsConsistent m
    → IsConsistent (auto_persisted w k m)
auto_persisted-IsConsistent w k m c = elim (Bool-cases m.auto_persist) [
  | inl e ↦
      subst IsConsistent (sym (if-true m.auto_persist (persist w k m).0 m e))
        (persist-IsConsistent w k m c)
  | inr e ↦ subst IsConsistent (sym (if-false m.auto_persist (persist w k m).0 m e)) c
]

-- A good version with a circuit that is not open in the place of another one
pub store-IsConsistent :
    (m : DefenseRulePersistence) (rule_id : String) (i : ℕ) (u v : RuleVersion)
    → IsConsistent m
    → version_at m.rules rule_id i ≡ some u
    → Good rule_id v
    → (v.circuit_state == opened) ≡ false
    → IsConsistent (store rule_id i v m)
store-IsConsistent m rule_id i u v c there good fine = record {
  versions = store-AllGood m.rules rule_id i v c.versions good;
  unique = Unique-put m.rules rule_id _ c.unique;
  actives = store-Actives m.rules m.active_versions rule_id i u v c.actives there fine;
  filed = c.filed;
}
