-- ===== src/Rules/Recovery.antt =====
-- evolution/defense_rule_persistence.py: the two ways to an active version after the circuit broke.
use photon_kernel_sil.Prelude.{
  ℕ, suc, ◌+◌, ◌<◌, String, true, List, [], ◌∷◌, some, ◌≡◌, inl, inr, refl, sym, ap, ◌∙◌, arith,
  ◌==◌, nat_eq, string_eq, ==_iff, length, Bool-cases, Option-cases, if-true, if-false,
}
use photon_kernel_sil.Prelude.Dict.{get, get_or, get-put_self}
use photon_kernel_sil.Rules.Types.{
  rule_state_eq, active, circuit_broken, half_open, circuit_state_eq, RuleVersion,
  DefenseRulePersistence, World,
}
use photon_kernel_sil.Rules.Places.{at}
use photon_kernel_sil.Rules.Versions.{version_at}
use photon_kernel_sil.Rules.Circuit.{
  active_version, last_active, cooled, first_cooled, attempt_half_open,
}
use photon_kernel_sil.Rules.Active.{auto_persisted-rest, active_version-found, version_at-store}
use photon_kernel_sil.Rules.Breaking.{Use, use_all, IsHalfOpen, use_all-IsHalfOpen}

-- The version that is found stands at its place and its circuit broke.
pub record IsCooled (n j : ℕ) (versions : List RuleVersion) (v : RuleVersion) : Type 0 where
  pub place : ℕ
  pub counted : j ≡ n + place
  pub found : at versions place ≡ some v
  pub broken : v.state ≡ circuit_broken

pub first_cooled-IsCooled :
    (versions : List RuleVersion) (clock : ℕ → ℕ) (n j : ℕ) (v : RuleVersion)
    → first_cooled clock n versions ≡ some (j, v)
    → IsCooled n j versions v
unfolding first_cooled
first_cooled-IsCooled [] clock n j v h = absurd (ground (arith, h))
first_cooled-IsCooled (u ∷ versions) clock n j v h = elim (Bool-cases (cooled (clock n) u)) [
  | inl e ↦
      let p : some (n, u) ≡ some (j, v) = sym (if-true (cooled (clock n) u) _ _ e) ∙ h in
      let same_version : u ≡ v = ground (arith, p) in
      record {
        place = 0;
        counted = ground (arith, p);
        found = ap some same_version;
        broken =
            ap (λ x. x.state) (sym same_version)
            ∙ (==_iff u.state circuit_broken).0 (ground (arith, e));
      }
  | inr e ↦
      let rest =
        first_cooled-IsCooled versions clock (suc n) j v
          (sym (if-false (cooled (clock n) u) _ _ e) ∙ h) in
      record {
        place = suc rest.place;
        counted = omega (arith, rest.counted);
        found = rest.found;
        broken = rest.broken;
      }
]

attempt_half_open-IsHalfOpen :
    (w : World) (m : DefenseRulePersistence) (rule_id : String)
    → (attempt_half_open w m rule_id).1 ≡ true
    → IsHalfOpen (attempt_half_open w m rule_id).0 rule_id
unfolding attempt_half_open version_at
attempt_half_open-IsHalfOpen w m rule_id h =
    elim (Option-cases (first_cooled w.clock 0 (get_or m.rules rule_id []))) [
      | inl e ↦ absurd (ground (arith, h, e))
      | inr ((j, v), e) ↦
          let c = first_cooled-IsCooled (get_or m.rules rule_id []) w.clock 0 j v e in
          let v' = record v { circuit_state = half_open; success_count = 0; failure_count = 0 } in
          let (a, b, _) = auto_persisted-rest w (length (get_or m.rules rule_id [])) _ in
          let there : version_at m.rules rule_id j ≡ some v =
            ap (at (get_or m.rules rule_id [])) (omega (arith, c.counted)) ∙ c.found in
          rw (e, attempt_half_open)
            (record {
              place = j;
              version = v';
              found =
                  active_version-found _ rule_id j v'
                    (ap (λ d. get d rule_id) b ∙ get-put_self m.active_versions rule_id j)
                    (ap (λ d. version_at d rule_id j) a
                      ∙ ground (
                        arith,
                        version_at-store m.rules rule_id rule_id j j v v' there,
                        ==_iff rule_id rule_id,
                      ));
              circuit = refl;
              state = c.broken;
            })
    ]

-- Once `attempt_half_open` has made a version active again, triggers and failures in any number
-- leave the version half open and broken: it is neither closed by successes nor opened by failures.
pub attempt_half_open_stays :
    (w : World) (m : DefenseRulePersistence) (rule_id : String) (uses : List Use)
    → (attempt_half_open w m rule_id).1 ≡ true
    → (i : ℕ) × (v : RuleVersion) × (active_version
          (use_all rule_id (attempt_half_open w m rule_id).0 uses)
          rule_id
        ≡ some (i, v))
      × (v.circuit_state ≡ half_open)
      × (v.state ≡ circuit_broken)
attempt_half_open_stays w m rule_id uses h =
    let r =
      use_all-IsHalfOpen uses rule_id (attempt_half_open w m rule_id).0
        (attempt_half_open-IsHalfOpen w m rule_id h) in
    (r.place, r.version, r.found, r.circuit, r.state)

-- The version that is gone back to: ACTIVE, and not the newest
pub record IsPrevious (n j : ℕ) (versions : List RuleVersion) : Type 0 where
  pub place : ℕ
  pub counted : j ≡ n + place
  pub version : RuleVersion
  pub found : at versions place ≡ some version
  pub stable : version.state ≡ active
  pub earlier : place + 1 < length versions

pub last_active-IsPrevious :
    (versions : List RuleVersion) (n j : ℕ)
    → last_active n versions ≡ some j
    → IsPrevious n j versions
unfolding last_active
last_active-IsPrevious [] n j h = absurd (ground (arith, h))
last_active-IsPrevious (v ∷ []) n j h = absurd (ground (arith, h))
last_active-IsPrevious (v ∷ u ∷ versions) n j h =
    elim (Option-cases (last_active (suc n) (u ∷ versions))) [
      | inl e ↦ elim (Bool-cases (v.state == active)) [
        | inl f ↦ record {
          place = 0;
          counted = ground (arith, h, e, f);
          version = v;
          found = refl;
          stable = (==_iff v.state active).0 f;
          earlier = omega arith;
        }
        | inr f ↦ absurd (ground (arith, h, e, f))
      ]
      | inr (i, e) ↦
          let rest = last_active-IsPrevious (u ∷ versions) (suc n) j (e ∙ ground (arith, h, e)) in
          record {
            place = suc rest.place;
            counted = omega (arith, rest.counted);
            version = rest.version;
            found = rest.found;
            stable = rest.stable;
            earlier = omega (arith, rest.earlier);
          }
    ]
