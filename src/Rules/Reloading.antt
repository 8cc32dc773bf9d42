-- ===== src/Rules/Reloading.antt =====
-- evolution/defense_rule_persistence.py: the file and its reading keep what holds of the versions.
use photon_kernel_sil.Prelude.{
  ℕ, suc, String, true, List, [], ◌∷◌, map, All, some, ◌≡◌, ◌≢◌, inl, inr, refl, sym, subst, length,
  ap, ◌∙◌, arith, nat_eq, string_eq, Bool-cases, Option-cases,
}
use photon_kernel_sil.Prelude.Dict.{Dict, Entries}
use photon_kernel_sil.Rules.Types.{
  rule_state_eq, opened, circuit_state_eq, RuleState, draft, pending, deployed, monitoring, active,
  circuit_broken, rolled_back, deprecated, CircuitBreakerState, closed, opened, half_open,
  RuleVersion, DefenseRulePersistence, World, SavedVersion,
}
use photon_kernel_sil.Rules.Versions.{persist, load}
use photon_kernel_sil.Rules.Saving.{
  state_value, circuit_value, rule_state, circuit_breaker_state, to_dict, saved, made, loaded,
  load_versions, load_rules,
}
use photon_kernel_sil.Rules.Upkeep.{Good, Unique, AllGood}

rule_state-state_value : (state : RuleState) → rule_state (state_value state) ≡ some state
unfolding rule_state
rule_state-state_value draft = refl
rule_state-state_value pending = refl
rule_state-state_value deployed = refl
rule_state-state_value monitoring = refl
rule_state-state_value active = refl
rule_state-state_value circuit_broken = refl
rule_state-state_value rolled_back = refl
rule_state-state_value deprecated = refl

circuit_breaker_state-circuit_value :
    (state : CircuitBreakerState) → circuit_breaker_state (circuit_value state) ≡ some state
unfolding circuit_breaker_state
circuit_breaker_state-circuit_value closed = refl
circuit_breaker_state-circuit_value opened = refl
circuit_breaker_state-circuit_value half_open = refl

-- What the file keeps of a version
abbrev pub reloaded : (String → String) → RuleVersion → RuleVersion
reloaded json v = made (json v.config) (to_dict v) v.state v.circuit_state

pub loaded-to_dict :
    (json : String → String) (v : RuleVersion) → loaded json (to_dict v) ≡ some (reloaded json v)
unfolding loaded
loaded-to_dict json v =
    rw (rule_state-state_value v.state, loaded, circuit_breaker_state-circuit_value v.circuit_state)
      refl

-- A version in a file is good if whatever can be read from it is.
abbrev SavedGood : String → SavedVersion → Type 0
SavedGood id s = (json : String → String) (v : RuleVersion) → loaded json s ≡ some v → Good id v

abbrev pub AllSavedGood : Dict String (List SavedVersion) → Type 0
AllSavedGood rules = Entries (λ rule_id versions. All (SavedGood rule_id) versions) rules

to_dict-Good : (id : String) (v : RuleVersion) → Good id v → SavedGood id (to_dict v)
to_dict-Good id v h json u e =
    let same_version : reloaded json v ≡ u = ground (arith, sym (loaded-to_dict json v) ∙ e) in
    subst (Good id) same_version h

map-to_dict-Good :
    (id : String) (versions : List RuleVersion)
    → All (Good id) versions
    → All (SavedGood id) (map to_dict versions)
map-to_dict-Good id [] h = tt
map-to_dict-Good id (v ∷ versions) h = (to_dict-Good id v h.0, map-to_dict-Good id versions h.1)

pub saved-AllSavedGood :
    (rules : Dict String (List RuleVersion)) → AllGood rules → AllSavedGood (saved rules)
saved-AllSavedGood [] h = tt
saved-AllSavedGood ((id, versions) ∷ rules) h =
    (map-to_dict-Good id versions h.0, saved-AllSavedGood rules h.1)

saved-absent :
    (P : String → Type 0) (rules : Dict String (List RuleVersion))
    → All (λ entry. P entry.0) rules
    → All (λ entry. P entry.0) (saved rules)
saved-absent P [] h = tt
saved-absent P (r ∷ rules) h = (h.0, saved-absent P rules h.1)

pub saved-Unique : (rules : Dict String (List RuleVersion)) → Unique rules → Unique (saved rules)
saved-Unique [] u = tt
saved-Unique ((id, versions) ∷ rules) u =
    (saved-absent (λ i. i ≢ id) rules u.0, saved-Unique rules u.1)

load_versions-Good :
    (json : String → String) (id : String) (versions : List SavedVersion)
    → All (SavedGood id) versions
    → All (Good id) (load_versions json versions).0
unfolding load_versions
load_versions-Good json id [] h = tt
load_versions-Good json id (s ∷ versions) h = elim (Option-cases (loaded json s)) [
  | inl e ↦ rw (e, load_versions) tt
  | inr (v, e) ↦ rw (e, load_versions) (h.0 json v e, load_versions-Good json id versions h.1)
]

pub load_rules-AllGood :
    (json : String → String) (rules : Dict String (List SavedVersion))
    → AllSavedGood rules
    → AllGood (load_rules json rules).0
unfolding load_rules
load_rules-AllGood json [] h = tt
load_rules-AllGood json ((id, versions) ∷ rules) h =
    let good = load_versions-Good json id versions h.0 in
    elim (Bool-cases (load_versions json versions).1) [
      | inl e ↦ rw (e, load_rules) (good, load_rules-AllGood json rules h.1)
      | inr e ↦ rw (e, load_rules) (good, tt)
    ]

load_rules-absent :
    (json : String → String) (P : String → Type 0) (rules : Dict String (List SavedVersion))
    → All (λ entry. P entry.0) rules
    → All (λ entry. P entry.0) (load_rules json rules).0
unfolding load_rules
load_rules-absent json P [] h = tt
load_rules-absent json P ((id, versions) ∷ rules) h =
    elim (Bool-cases (load_versions json versions).1) [
      | inl e ↦ rw (e, load_rules) (h.0, load_rules-absent json P rules h.1)
      | inr e ↦ rw (e, load_rules) (h.0, tt)
    ]

pub load_rules-Unique :
    (json : String → String) (rules : Dict String (List SavedVersion))
    → Unique rules
    → Unique (load_rules json rules).0
unfolding load_rules
load_rules-Unique json [] u = tt
load_rules-Unique json ((id, versions) ∷ rules) u =
    elim (Bool-cases (load_versions json versions).1) [
      | inl e ↦
          rw (e, load_rules)
            (load_rules-absent json (λ i. i ≢ id) rules u.0, load_rules-Unique json rules u.1)
      | inr e ↦ rw (e, load_rules) (tt, tt)
    ]

-- The configuration of each version is the same after it was written and read.
abbrev pub Keeps : (String → String) → Dict String (List RuleVersion) → Type 0
Keeps json rules = Entries (λ rule_id versions. All (λ v. json v.config ≡ v.config) versions) rules

all_reloaded : (String → String) → Dict String (List RuleVersion) → Dict String (List RuleVersion)
all_reloaded json [] = []
all_reloaded json ((rule_id, versions) ∷ rules) =
    (rule_id, map (reloaded json) versions) ∷ all_reloaded json rules

load_versions-to_dict :
    (json : String → String) (versions : List RuleVersion)
    → load_versions json (map to_dict versions) ≡ (map (reloaded json) versions, true)
unfolding load_versions
load_versions-to_dict json [] = refl
load_versions-to_dict json (v ∷ versions) =
    rw (loaded-to_dict json v, load_versions, load_versions-to_dict json versions) refl

load_rules-saved :
    (json : String → String) (rules : Dict String (List RuleVersion))
    → load_rules json (saved rules) ≡ (all_reloaded json rules, true)
unfolding load_rules all_reloaded
load_rules-saved json [] = refl
load_rules-saved json ((rule_id, versions) ∷ rules) =
    rw (load_versions-to_dict json versions, load_rules, load_rules-saved json rules) refl

to_dict-reloaded :
    (json : String → String) (versions : List RuleVersion)
    → All (λ v. json v.config ≡ v.config) versions
    → map to_dict (map (reloaded json) versions) ≡ map to_dict versions
to_dict-reloaded json [] h = refl
to_dict-reloaded json (v ∷ versions) h =
    ap
      (λ config.
        record (to_dict v) { config = config } ∷ map to_dict (map (reloaded json) versions))
      h.0
    ∙ ap (◌∷◌ (to_dict v)) (to_dict-reloaded json versions h.1)

saved-all_reloaded :
    (json : String → String) (rules : Dict String (List RuleVersion))
    → Keeps json rules
    → (saved (all_reloaded json rules) ≡ saved rules)
      × (length (all_reloaded json rules) ≡ length rules)
unfolding all_reloaded
saved-all_reloaded json [] h = (refl, refl)
saved-all_reloaded json ((rule_id, versions) ∷ rules) h =
    let rest = saved-all_reloaded json rules h.1 in
    (
      ap (λ vs. (rule_id, vs) ∷ saved (all_reloaded json rules))
            (to_dict-reloaded json versions h.0)
          ∙ ap (◌∷◌ (rule_id, map to_dict versions)) rest.0,
      ap suc rest.1,
    )

-- Where the file can be written and each configuration is the same after it was written and read,
-- `load` after `persist` raises nothing and finds as many rules as there were, and the versions agree
-- with those before in everything that `to_dict` writes.
pub load-persist :
    (json : String → String) (w : World) (k : ℕ) (m : DefenseRulePersistence)
    → w.written ≡ true
    → Keeps json m.rules
    → let z = load json (persist w k m).0 in
      (saved z.0.rules ≡ saved m.rules) × (z.1 ≡ some (length m.rules))
unfolding persist load
load-persist json w k m e kept =
    let (same_rules, same_length) = saved-all_reloaded json m.rules kept in
    rw (e, persist, load, load_rules-saved json m.rules) (same_rules, ap some same_length)
