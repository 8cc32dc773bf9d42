-- ===== src/Rules/Upholding.antt =====
-- Each step of a history keeps what holds of the rules of defence.
use photon_kernel_sil.Prelude.{
  ℕ, ◌+◌, String, Bool, true, false, List, [], ◌∷◌, ◌++◌, All, All-append, some, ◌≡◌, inl, inr,
  refl, sym, ap, ◌∙◌, subst, arith, ◌==◌, nat_eq, string_eq, ==_iff, length, Bool-cases,
  Option-cases, if-true, if-false,
}
use photon_kernel_sil.Prelude.Dict.{Dict, get_or, put, get_or-put, Entries-put}
use photon_kernel_sil.Rules.Types.{
  rule_state_eq, RuleState-discrete, circuit_broken, CircuitBreakerState-discrete, opened,
  half_open, circuit_state_eq, RuleVersion, DefenseRulePersistence, World,
}
use photon_kernel_sil.Rules.Places.{at, at-append, at-append_old}
use photon_kernel_sil.Rules.Versions.{version_at, update_stats, new_version, deploy_rule}
use photon_kernel_sil.Rules.Circuit.{
  active_version, store, triggered, proven, record_trigger, first_cooled, attempt_half_open,
}
use photon_kernel_sil.Rules.Active.{active_version-parts, version_at-store, promoted}
use photon_kernel_sil.Rules.Recovery.{first_cooled-IsCooled}
use photon_kernel_sil.Rules.Upkeep.{
  Good, Unique-put, get_or-AllGood, version_at-Good, Actives, point-Actives,
}
use photon_kernel_sil.Rules.Invariant.{
  IsConsistent, same-IsConsistent, auto_persisted-IsConsistent, store-IsConsistent,
}

append-Actives :
    (rules : Dict String (List RuleVersion)) (active_versions : Dict String ℕ) (rule_id : String)
    (v : RuleVersion)
    → Actives rules active_versions
    → Actives (put rules rule_id (get_or rules rule_id [] ++ v ∷ [])) active_versions
unfolding version_at
append-Actives rules active_versions rule_id v h id i e =
    let (t, f, g) = h id i e in
    let now =
      ap (λ vs. at vs i) (get_or-put rules rule_id id (get_or rules rule_id [] ++ v ∷ []) []) in
    elim (Bool-cases (rule_id == id)) [
      | inl q ↦
          let old = ap (λ k. at (get_or rules k []) i) ((==_iff rule_id id).0 q) ∙ f in
          (
            t,
            now
                ∙ ap (λ vs. at vs i) (if-true (rule_id == id) _ _ q)
                ∙ at-append_old (get_or rules rule_id []) v t i old,
            g,
          )
      | inr q ↦ (t, now ∙ ap (λ vs. at vs i) (if-false (rule_id == id) _ _ q) ∙ f, g)
    ]

pub deploy_rule-IsConsistent :
    (w : World) (m : DefenseRulePersistence) (rule_id config deployed_by : String)
    → IsConsistent m
    → IsConsistent (deploy_rule w m rule_id config deployed_by).0
unfolding deploy_rule update_stats new_version RuleState-discrete CircuitBreakerState-discrete
    version_at
deploy_rule-IsConsistent w m rule_id config deployed_by c =
    let v = new_version w.clock rule_id config deployed_by in
    let versions = get_or m.rules rule_id [] in
    let rules = put m.rules rule_id (versions ++ v ∷ []) in
    let there : version_at rules rule_id (length versions) ≡ some v =
      ap (λ vs. at vs (length versions))
        (get_or-put m.rules rule_id rule_id (versions ++ v ∷ []) []
          ∙ if-true (rule_id == rule_id) _ _ ((==_iff rule_id rule_id).1 refl))
      ∙ at-append versions v in
    let m' = update_stats (record m {
      rules = rules;
      active_versions = put m.active_versions rule_id (length versions);
      stats = record m.stats { total_versions = m.stats.total_versions + 1 };
    }) in
    auto_persisted-IsConsistent w 2 m' (record {
      versions =
          Entries-put (λ id vs. All (Good id) vs) m.rules rule_id (versions ++ v ∷ []) c.versions
            (All-append (Good rule_id) versions (v ∷ []) (get_or-AllGood m.rules rule_id c.versions)
              ((refl, refl, omega arith), tt));
      unique = Unique-put m.rules rule_id _ c.unique;
      actives =
          point-Actives rules m.active_versions rule_id (length versions) v
            (append-Actives m.rules m.active_versions rule_id v c.actives) there refl;
      filed = c.filed;
    })

triggered-Good :
    (blocked : Bool) (id : String) (v : RuleVersion)
    → Good id v
    → Good id (triggered blocked v) × ((triggered blocked v).circuit_state ≡ v.circuit_state)
triggered-Good true id v (a, b, c) = ((a, b, omega (arith, c)), refl)
triggered-Good false id v (a, b, c) = ((a, b, omega (arith, c)), refl)

promoted-Good :
    (now : ℕ) (id : String) (v : RuleVersion)
    → Good id v
    → Good id (promoted now v) × ((promoted now v).circuit_state ≡ v.circuit_state)
unfolding RuleState-discrete CircuitBreakerState-discrete
promoted-Good now id v (a, b, c) =
    let good = λ (u : RuleVersion). Good id u × (u.circuit_state ≡ v.circuit_state) in
    elim (Bool-cases (proven v)) [
      | inl e ↦ subst good (sym (if-true (proven v) _ v e)) ((a, ground (arith, b, e), c), refl)
      | inr e ↦ subst good (sym (if-false (proven v) _ v e)) ((a, b, c), refl)
    ]

pub active_version-opened :
    (m : DefenseRulePersistence) (rule_id : String) (i : ℕ) (v : RuleVersion)
    → IsConsistent m
    → active_version m rule_id ≡ some (i, v)
    → (version_at m.rules rule_id i ≡ some v)
      × Good rule_id v
      × ((v.circuit_state == opened) ≡ false)
active_version-opened m rule_id i v c h =
    let (a, b) = active_version-parts m rule_id i v h in
    let (t, f, g) = c.actives rule_id i a in
    (b, version_at-Good m.rules rule_id i v c.versions b, ground (arith, f, g, b))

pub record_trigger-IsConsistent :
    (w : World) (m : DefenseRulePersistence) (rule_id : String) (blocked : Bool)
    → IsConsistent m
    → IsConsistent (record_trigger w m rule_id blocked)
unfolding record_trigger update_stats
record_trigger-IsConsistent w m rule_id blocked c = elim (Option-cases (active_version m rule_id)) [
  | inl e ↦ rw (e, record_trigger) c
  | inr ((i, v), e) ↦
      let (there, good, fine) = active_version-opened m rule_id i v c e in
      let (good1, same1) = triggered-Good blocked rule_id v good in
      let (good', same2) = promoted-Good (w.clock 0) rule_id (triggered blocked v) good1 in
      let same_circuit = same2 ∙ same1 in
      let v' = promoted (w.clock 0) (triggered blocked v) in
      rw (e, record_trigger)
        (auto_persisted-IsConsistent w 1 (update_stats (store rule_id i v' m)) (
          same-IsConsistent (store rule_id i v' m) (update_stats (store rule_id i v' m)) refl refl
            refl
            (store-IsConsistent m rule_id i v v' c there good'
              (ap (λ s. s == opened) same_circuit ∙ fine))))
]

pub attempt_half_open-IsConsistent :
    (w : World) (m : DefenseRulePersistence) (rule_id : String)
    → IsConsistent m
    → IsConsistent (attempt_half_open w m rule_id).0
unfolding attempt_half_open version_at RuleState-discrete CircuitBreakerState-discrete
attempt_half_open-IsConsistent w m rule_id c =
    elim (Option-cases (first_cooled w.clock 0 (get_or m.rules rule_id []))) [
      | inl e ↦ rw (e, attempt_half_open) c
      | inr ((j, v), e) ↦
          let h = first_cooled-IsCooled (get_or m.rules rule_id []) w.clock 0 j v e in
          let v' = record v { circuit_state = half_open; success_count = 0; failure_count = 0 } in
          let there : version_at m.rules rule_id j ≡ some v =
            ap (at (get_or m.rules rule_id [])) (omega (arith, h.counted)) ∙ h.found in
          let (a, _, b) = version_at-Good m.rules rule_id j v c.versions there in
          let s =
            store-IsConsistent m rule_id j v v' c there
              (a, ap (λ x. x == circuit_broken) h.broken, b) refl in
          let there' : version_at (store rule_id j v' m).rules rule_id j ≡ some v' = ground (
            arith,
            version_at-store m.rules rule_id rule_id j j v v' there,
            ==_iff rule_id rule_id,
          ) in
          rw (e, attempt_half_open)
            (auto_persisted-IsConsistent w (length (get_or m.rules rule_id []))
              (record (store rule_id j v' m) { active_versions = put m.active_versions rule_id j })
              (record {
                versions = s.versions;
                unique = s.unique;
                actives =
                    point-Actives (store rule_id j v' m).rules m.active_versions rule_id j v'
                      s.actives there' refl;
                filed = s.filed;
              }))
    ]
