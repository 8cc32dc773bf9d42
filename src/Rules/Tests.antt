-- ===== src/Rules/Tests.antt =====
-- Runs of the rules of defence at concrete inputs.
use photon_kernel_sil.Prelude.{
  ℕ, ◌+◌, true, false, List, [], ◌∷◌, none, some, ◌≡◌, ◌⊎◌, refl, arith, nat_eq, string_eq, ◌==◌,
  length,
}
use photon_kernel_sil.Prelude.Dict.{get, get_or, put}
use photon_kernel_sil.Rules.Types.{
  rule_state_eq, RuleState-discrete, active, circuit_broken, CircuitBreakerState-discrete, opened,
  half_open, circuit_state_eq, RuleVersion, DefenseRulePersistence, World,
}
use photon_kernel_sil.Rules.Versions.{
  version_at, update_stats, persist, load, new_version, deploy_rule,
}
use photon_kernel_sil.Rules.Circuit.{
  active_version, record_trigger, restored, record_failure, first_cooled, attempt_half_open,
  is_circuit_broken,
}
use photon_kernel_sil.Rules.Breaking.{breaks, record_failure_breaks, Use, triggers, fails, use_all}
use photon_kernel_sil.Rules.Recovery.{attempt_half_open_stays}
use photon_kernel_sil.Rules.Aftermath.{record_failure_broke}
use photon_kernel_sil.Rules.Saving.{saved}
use photon_kernel_sil.Rules.Reloading.{Keeps, load-persist}
use photon_kernel_sil.Rules.Invariant.{deploys, triggers_rule, step, Reachable, initial, after}
use photon_kernel_sil.Rules.States.{fresh, is_circuit_broken_lem}

abbrev world : ℕ → World
world now = record { clock = λ k. now + k; written = true }

abbrev start : DefenseRulePersistence
start = fresh true true true

abbrev one : DefenseRulePersistence
one = step start (deploys (world 1000000) "seccomp" "{}" "loop")

abbrev two : DefenseRulePersistence
two = step one (triggers_rule (world 2000000) "seccomp" false)

two-Reachable : Reachable start two
two-Reachable =
    after one (triggers_rule (world 2000000) "seccomp" false)
      (after start (deploys (world 1000000) "seccomp" "{}" "loop") initial)

abbrev first : RuleVersion
first = new_version (world 1000000).clock "seccomp" "{}" "loop"

record_failure_breaks_example : breaks 5 (λ n. world 3000000) one "seccomp" ≡ true
unfolding step deploy_rule put get get_or active_version version_at new_version update_stats persist
record_failure_breaks_example =
    record_failure_breaks 5 (λ n. world 3000000) one "seccomp" 0 first refl refl refl (omega arith)
      (omega arith)

-- After an ACTIVE version, one with as many failures as the threshold minus one
abbrev shaky : DefenseRulePersistence
shaky = record start {
  rules =
      ("seccomp", record first { state = active } ∷ record first { failure_count = 4 } ∷ []) ∷ [];
  active_versions = ("seccomp", 1) ∷ [];
}

record_failure_broke_example :
    let z = record_failure (world 4000000) shaky "seccomp" in
    (i : ℕ) × (get shaky.active_versions "seccomp" ≡ some i)
    × ((get z.0.active_versions "seccomp" ≡ none)
        ⊎ ((j : ℕ) × (v : RuleVersion) × ((i == j) ≡ false)
            × (version_at shaky.rules "seccomp" j ≡ some v)
            × (v.state ≡ active)
            × (active_version z.0 "seccomp" ≡ some (j, restored v))))
    × (z.0.file ≡ shaky.file)
unfolding record_failure active_version version_at get get_or new_version
    CircuitBreakerState-discrete
record_failure_broke_example = record_failure_broke (world 4000000) shaky "seccomp" refl

abbrev broken : DefenseRulePersistence
broken = record start {
  rules =
      (
        "seccomp",
        record first { state = circuit_broken; circuit_state = opened; last_failure_time = 5000000 }
            ∷ [],
      )
      ∷ [];
}

abbrev uses : List Use
uses = triggers (world 70000000) true ∷ fails (world 71000000) ∷ triggers (world 72000000) true ∷ []

attempt_half_open_stays_example :
    (i : ℕ) × (v : RuleVersion) × (active_version
        (use_all "seccomp" (attempt_half_open (world 65000000) broken "seccomp").0 uses)
        "seccomp"
      ≡ some (i, v))
    × (v.circuit_state ≡ half_open)
    × (v.state ≡ circuit_broken)
unfolding attempt_half_open first_cooled get get_or new_version CircuitBreakerState-discrete
    RuleState-discrete
attempt_half_open_stays_example =
    attempt_half_open_stays (world 65000000) broken "seccomp" uses refl

two_Keeps : Keeps (λ s. s) two.rules
unfolding step deploy_rule put get get_or active_version version_at new_version update_stats persist
    record_trigger RuleState-discrete
two_Keeps = ((refl, tt), tt)

load-persist_example :
    let z = load (λ s. s) (persist (world 6000000) 0 two).0 in
    (saved z.0.rules ≡ saved two.rules) × (z.1 ≡ some (length two.rules))
load-persist_example = load-persist (λ s. s) (world 6000000) 0 two refl two_Keeps

is_circuit_broken_lem_example :
    (v : RuleVersion) × (version_at two.rules "seccomp" 0 ≡ some v)
    × (v.rule_id ≡ "seccomp")
    × (is_circuit_broken two "seccomp" ≡ false)
unfolding step deploy_rule put get get_or active_version version_at new_version update_stats persist
    record_trigger RuleState-discrete
is_circuit_broken_lem_example =
    is_circuit_broken_lem true true true two "seccomp" 0 two-Reachable refl
