-- ===== src/Rules/Upkeep.antt =====
-- evolution/defense_rule_persistence.py: what holds of every version, and its upkeep.
use photon_kernel_sil.Prelude.{
  ℕ, ◌+◌, String, false, not, ◌&&◌, List, [], ◌∷◌, All, some, ◌≡◌, ◌≢◌, inl, inr, sym, ap, ◌∙◌,
  subst, arith, ◌==◌, nat_eq, string_eq, ==_iff, Bool-cases, Option-cases,
}
use photon_kernel_sil.Prelude.Dict.{
  Dict, get, get_or, put, get-put, Entries, Entries-put, Entries-get, get_or-some, get_or-none,
}
use photon_kernel_sil.Rules.Types.{
  rule_state_eq, circuit_broken, closed, opened, circuit_state_eq, RuleVersion,
}
use photon_kernel_sil.Rules.Places.{set_at, All-at, All-set_at}
use photon_kernel_sil.Rules.Versions.{version_at}
use photon_kernel_sil.Rules.Active.{version_at-store}

-- A version stands under the id of its rule; it is broken exactly if its circuit is not closed; and
-- each of its triggers was a block or a false positive.
abbrev pub Good : String → RuleVersion → Type 0
Good rule_id v =
    (v.rule_id ≡ rule_id)
    × ((v.state == circuit_broken) ≡ not (v.circuit_state == closed))
    × (v.trigger_count ≡ v.block_count + v.false_positive_count)

-- No key stands twice.
abbrev pub Unique {ℓ} : {V : Type ℓ} → Dict String V → Type ℓ
Unique [] = Unit
Unique ((k, v) ∷ d) = All (λ entry. entry.0 ≢ k) d × Unique d

All-put :
    {V : Type 0} (P : String → Type 0) (d : Dict String V) (k : String) (v : V)
    → All (λ entry. P entry.0) d
    → P k
    → All (λ entry. P entry.0) (put d k v)
unfolding put
All-put P [] k v h p = (p, tt)
All-put P ((j, w) ∷ d) k v h p = elim (Bool-cases (j == k)) [
  | inl e ↦ rw e (h.0, h.1)
  | inr e ↦ rw e (h.0, All-put P d k v h.1 p)
]

pub Unique-put :
    {V : Type 0} (d : Dict String V) (k : String) (v : V) → Unique d → Unique (put d k v)
unfolding put
Unique-put [] k v u = (tt, tt)
Unique-put ((j, w) ∷ d) k v u = elim (Bool-cases (j == k)) [
  | inl e ↦ rw e (u.0, u.1)
  | inr e ↦
      rw e (
        All-put (λ i. i ≢ j) d k v u.0 (λ q. ground (arith, e, q, ==_iff j k)),
        Unique-put d k v u.1,
      )
]

abbrev pub AllGood : Dict String (List RuleVersion) → Type 0
AllGood rules = Entries (λ rule_id versions. All (Good rule_id) versions) rules

pub get_or-AllGood :
    (rules : Dict String (List RuleVersion)) (id : String)
    → AllGood rules
    → All (Good id) (get_or rules id [])
get_or-AllGood rules id h = elim (Option-cases (get rules id)) [
  | inl e ↦ subst (All (Good id)) (sym (get_or-none rules id [] e)) tt
  | inr (vs, e) ↦
      subst (All (Good id)) (sym (get_or-some rules id vs [] e))
        (Entries-get (λ rule_id versions. All (Good rule_id) versions) rules id vs h e)
]

pub version_at-Good :
    (rules : Dict String (List RuleVersion)) (id : String) (i : ℕ) (v : RuleVersion)
    → AllGood rules
    → version_at rules id i ≡ some v
    → Good id v
unfolding version_at
version_at-Good rules id i v h e =
    All-at (Good id) (get_or rules id []) i v (get_or-AllGood rules id h) e

pub store-AllGood :
    (rules : Dict String (List RuleVersion)) (id : String) (i : ℕ) (v : RuleVersion)
    → AllGood rules
    → Good id v
    → AllGood (put rules id (set_at (get_or rules id []) i v))
store-AllGood rules id i v h g =
    Entries-put (λ rule_id versions. All (Good rule_id) versions) rules id
      (set_at (get_or rules id []) i v) h
      (All-set_at (Good id) (get_or rules id []) i v (get_or-AllGood rules id h) g)

-- Each rule's active version is there, and its circuit is not open.
abbrev pub Actives : Dict String (List RuleVersion) → Dict String ℕ → Type 0
Actives rules active_versions =
    (id : String) (i : ℕ)
    → get active_versions id ≡ some i
    → (v : RuleVersion) × (version_at rules id i ≡ some v) × ((v.circuit_state == opened) ≡ false)

pub store-Actives :
    (rules : Dict String (List RuleVersion)) (active_versions : Dict String ℕ) (rule_id : String)
    (i : ℕ) (u v : RuleVersion)
    → Actives rules active_versions
    → version_at rules rule_id i ≡ some u
    → (v.circuit_state == opened) ≡ false
    → Actives (put rules rule_id (set_at (get_or rules rule_id []) i v)) active_versions
store-Actives rules active_versions rule_id i u v h there fine id j e =
    let (t, f, g) = h id j e in
    let now = version_at-store rules rule_id id i j u v there in
    elim (Bool-cases ((rule_id == id) && (i == j))) [
      | inl q ↦ (v, ground (arith, now, q), fine)
      | inr q ↦ (t, ground (arith, now, q, f), g)
    ]

-- The version at a place becomes the active one of its rule.
pub point-Actives :
    (rules : Dict String (List RuleVersion)) (active_versions : Dict String ℕ) (rule_id : String)
    (i : ℕ) (v : RuleVersion)
    → Actives rules active_versions
    → version_at rules rule_id i ≡ some v
    → (v.circuit_state == opened) ≡ false
    → Actives rules (put active_versions rule_id i)
point-Actives rules active_versions rule_id i v h there fine id j e =
    let found = sym (get-put active_versions rule_id id i) ∙ e in
    elim (Bool-cases (rule_id == id)) [
      | inl q ↦
          let same_place : i ≡ j = ground (arith, found, q) in
          (
            v,
            ap (λ k. version_at rules k j) (sym ((==_iff rule_id id).0 q))
                ∙ ap (version_at rules rule_id) (sym same_place)
                ∙ there,
            fine,
          )
      | inr q ↦ h id j (ground (arith, found, q))
    ]
