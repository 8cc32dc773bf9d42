-- ===== src/Rules/Breaking.antt =====
-- evolution/defense_rule_persistence.py: when the circuit of a rule breaks, and what comes after.
use photon_kernel_sil.Prelude.{
  ℕ, zero, suc, ◌+◌, ◌≤◌, ◌<◌, String, Bool, true, false, ◌||◌, List, [], ◌∷◌, some, ◌≡◌, inl, inr,
  refl, ◌∙◌, arith, nat_eq, string_eq, ==_iff, Bool-cases,
}
use photon_kernel_sil.Rules.Types.{
  rule_state_eq, RuleState-discrete, circuit_broken, CircuitBreakerState-discrete, closed,
  half_open, circuit_state_eq, RuleVersion, DefenseRulePersistence, World,
}
use photon_kernel_sil.Rules.Circuit.{
  active_version, triggered, record_trigger, tripped, record_failure,
}
use photon_kernel_sil.Rules.Active.{
  promoted, record_trigger-active, failed_once, record_failure-active,
}

-- Whether one of n calls of `record_failure` in a row breaks the circuit
unfoldable pub breaks : ℕ → (ℕ → World) → DefenseRulePersistence → String → Bool
breaks zero worlds m rule_id = false
breaks (suc n) worlds m rule_id =
    (record_failure (worlds n) m rule_id).1
    || breaks n worlds (record_failure (worlds n) m rule_id).0 rule_id

record_failure-trip :
    (w : World) (m : DefenseRulePersistence) (rule_id : String) (i : ℕ) (v : RuleVersion)
    → active_version m rule_id ≡ some (i, v)
    → tripped m.circuit_breaker_enabled (failed_once (w.clock 0) v) ≡ true
    → (record_failure w m rule_id).1 ≡ true
unfolding record_failure
record_failure-trip w m rule_id i v h t = rw (h, record_failure, t) refl

-- With the circuit breaker enabled, as many failures in a row as the threshold still asks for, and at
-- least one, break the closed circuit of the active version of a rule.
pub record_failure_breaks :
    (n : ℕ) (worlds : ℕ → World) (m : DefenseRulePersistence) (rule_id : String) (i : ℕ)
    (v : RuleVersion)
    → active_version m rule_id ≡ some (i, v)
    → m.circuit_breaker_enabled ≡ true
    → v.circuit_state ≡ closed
    → 0 < n
    → v.failure_threshold ≤ v.failure_count + n
    → breaks n worlds m rule_id ≡ true
unfolding breaks
record_failure_breaks zero worlds m rule_id i v h on c some_calls enough = absurd (omega arith)
record_failure_breaks (suc n) worlds m rule_id i v h on c some_calls enough =
    let w = worlds n in
    let v' = failed_once (w.clock 0) v in
    elim (Bool-cases (tripped m.circuit_breaker_enabled v')) [
      | inl t ↦ ground (arith, record_failure-trip w m rule_id i v h t)
      | inr t ↦
          let (h', _, on') = record_failure-active w m rule_id i v h t in
          let few : v.failure_count + 1 < v.failure_threshold =
            ground (arith, t, on, (==_iff v.circuit_state closed).1 c) in
          let rest =
            record_failure_breaks n worlds (record_failure w m rule_id).0 rule_id i v' h' (on' ∙ on)
              c (omega arith) (omega arith) in
          ground (arith, rest)
    ]

-- A use of a rule: a trigger, which blocked or not, or a failure
pub data Use : Type 0 where
  triggers : World → Bool → Use
  fails : World → Use

unfoldable pub use_all : String → DefenseRulePersistence → List Use → DefenseRulePersistence
use_all rule_id m [] = m
use_all rule_id m (triggers w blocked ∷ uses) =
    use_all rule_id (record_trigger w m rule_id blocked) uses
use_all rule_id m (fails w ∷ uses) = use_all rule_id (record_failure w m rule_id).0 uses

-- The active version of a rule is tried again after its circuit broke.
pub record IsHalfOpen (m : DefenseRulePersistence) (rule_id : String) : Type 0 where
  pub place : ℕ
  pub version : RuleVersion
  pub found : active_version m rule_id ≡ some (place, version)
  pub circuit : version.circuit_state ≡ half_open
  pub state : version.state ≡ circuit_broken

promoted-half_open :
    (now : ℕ) (blocked : Bool) (v : RuleVersion)
    → v.state ≡ circuit_broken
    → ((promoted now (triggered blocked v)).circuit_state ≡ v.circuit_state)
      × ((promoted now (triggered blocked v)).state ≡ circuit_broken)
unfolding RuleState-discrete
promoted-half_open now true v e = ground (arith, e)
promoted-half_open now false v e = ground (arith, e)

pub use_all-IsHalfOpen :
    (uses : List Use) (rule_id : String) (m : DefenseRulePersistence)
    → IsHalfOpen m rule_id
    → IsHalfOpen (use_all rule_id m uses) rule_id
unfolding use_all CircuitBreakerState-discrete
use_all-IsHalfOpen [] rule_id m h = h
use_all-IsHalfOpen (triggers w blocked ∷ uses) rule_id m h =
    let (c, s) = promoted-half_open (w.clock 0) blocked h.version h.state in
    use_all-IsHalfOpen uses rule_id (record_trigger w m rule_id blocked) (record {
      place = h.place;
      version = promoted (w.clock 0) (triggered blocked h.version);
      found = record_trigger-active w m rule_id blocked h.place h.version h.found;
      circuit = c ∙ h.circuit;
      state = s;
    })
use_all-IsHalfOpen (fails w ∷ uses) rule_id m h =
    let (f, _, _) =
      record_failure-active w m rule_id h.place h.version h.found (ground (arith, h.circuit)) in
    use_all-IsHalfOpen uses rule_id (record_failure w m rule_id).0 (record {
      place = h.place;
      version = failed_once (w.clock 0) h.version;
      found = f;
      circuit = h.circuit;
      state = h.state;
    })
