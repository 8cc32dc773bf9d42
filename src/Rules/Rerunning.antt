-- ===== src/Rules/Rerunning.antt =====
-- evolution/defense_rule_persistence.py: what `load` makes active is the last version that runs.
use photon_kernel_sil.Prelude.{
  ℕ, suc, ◌+◌, String, true, false, List, [], ◌∷◌, All, none, some, ◌≡◌, ◌≢◌, inl, inr, refl, ap,
  ◌∙◌, arith, ◌==◌, nat_eq, string_eq, ==_iff, Bool-cases, Option-cases, if◌then◌else◌,
}
use photon_kernel_sil.Prelude.Dict.{Dict, get, get_or, get_or-none, get-absent}
use photon_kernel_sil.Rules.Types.{
  rule_state_eq, RuleState-discrete, CircuitBreakerState-discrete, opened, circuit_state_eq,
  RuleVersion,
}
use photon_kernel_sil.Rules.Places.{at, All-at}
use photon_kernel_sil.Rules.Versions.{version_at}
use photon_kernel_sil.Rules.Saving.{running, last_running, all_running}
use photon_kernel_sil.Rules.Upkeep.{Good, Unique, AllGood, Actives}

-- The version that runs last
record LastRunning (n j : ℕ) (versions : List RuleVersion) : Type 0 where
  pub place : ℕ
  pub counted : j ≡ n + place
  pub version : RuleVersion
  pub found : at versions place ≡ some version
  pub runs : running version.state ≡ true

last_running-LastRunning :
    (versions : List RuleVersion) (n j : ℕ)
    → last_running n versions ≡ some j
    → LastRunning n j versions
unfolding last_running
last_running-LastRunning [] n j h = absurd (ground (arith, h))
last_running-LastRunning (v ∷ versions) n j h =
    elim (Option-cases (last_running (suc n) versions)) [
      | inl e ↦ elim (Bool-cases (running v.state)) [
        | inl f ↦ record {
          place = 0;
          counted = ground (arith, h, e, f);
          version = v;
          found = refl;
          runs = f;
        }
        | inr f ↦ absurd (ground (arith, h, e, f))
      ]
      | inr (i, e) ↦
          let rest = last_running-LastRunning versions (suc n) j (e ∙ ground (arith, h, e)) in
          record {
            place = suc rest.place;
            counted = omega (arith, rest.counted);
            version = rest.version;
            found = rest.found;
            runs = rest.runs;
          }
    ]

running-closed :
    (id : String) (v : RuleVersion)
    → Good id v
    → running v.state ≡ true
    → (v.circuit_state == opened) ≡ false
unfolding RuleState-discrete CircuitBreakerState-discrete
running-closed id v g r = ground (arith, g.1, r)

version_at-cons :
    (rule_id id : String) (versions : List RuleVersion) (rules : Dict String (List RuleVersion))
    (i : ℕ)
    → version_at ((rule_id, versions) ∷ rules) id i
      ≡ (if rule_id == id then at versions i else version_at rules id i)
unfolding version_at get_or get
version_at-cons rule_id id versions rules i = elim (Bool-cases (rule_id == id)) [
  | inl e ↦ rw (e, get_or, get) refl
  | inr e ↦ rw (e, get_or, get) refl
]

version_at-absent :
    (rules : Dict String (List RuleVersion)) (id : String) (i : ℕ)
    → All (λ entry. entry.0 ≢ id) rules
    → version_at rules id i ≡ none
unfolding version_at
version_at-absent rules id i h =
    ap (λ vs. at vs i) (get_or-none rules id [] (get-absent rules id h))

pub all_running-Actives :
    (rules : Dict String (List RuleVersion))
    → Unique rules
    → AllGood rules
    → Actives rules (all_running rules)
unfolding all_running get
all_running-Actives [] u h id i e = absurd (ground (arith, e))
all_running-Actives ((rule_id, versions) ∷ rules) u h id i e =
    let cons = version_at-cons rule_id id versions rules i in
    let rest =
      λ (q : get (all_running rules) id ≡ some i). all_running-Actives rules u.1 h.1 id i q in
    elim (Option-cases (last_running 0 versions)) [
      | inl f ↦
          let (v, there, fine) = rest (ground (arith, e, f)) in
          elim (Bool-cases (rule_id == id)) [
            | inl q ↦
                let gone = version_at-absent rules rule_id i u.0 in
                absurd (
                  ground
                    (arith, gone, there, ap (λ j. version_at rules j i) ((==_iff rule_id id).0 q)))
            | inr q ↦ (v, ground (arith, cons, q, there), fine)
          ]
      | inr (j, f) ↦ elim (Bool-cases (rule_id == id)) [
        | inl q ↦
            let l = last_running-LastRunning versions 0 j f in
            let same_place : j ≡ i = ground (arith, e, f, q) in
            let counted : i ≡ l.place = omega (arith, same_place, l.counted) in
            let there = ap (at versions) counted ∙ l.found in
            (
              l.version,
              ground (arith, cons, q, there),
              running-closed rule_id l.version
                  (All-at (Good rule_id) versions l.place l.version h.0 l.found) l.runs,
            )
        | inr q ↦
            let (v, there, fine) = rest (ground (arith, e, f, q)) in
            (v, ground (arith, cons, q, there), fine)
      ]
    ]
