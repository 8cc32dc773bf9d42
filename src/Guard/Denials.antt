-- ===== src/Guard/Denials.antt =====
-- When a tool call is denied.
use photon_kernel_sil.Prelude.{
  ℕ, String, Bool, true, false, not, ◌&&◌, ◌||◌, List, [], ◌∷◌, Option, ◌≡◌, inl, inr, refl, ap,
  ◌∙◌, arith, ltb, ◌==◌, nat_eq, string_eq, any, Bool-cases,
}
use photon_kernel_sil.Prelude.Dict.{Dict, values}
use photon_kernel_sil.Guard.Types.{
  PolicyAction, allow, deny, require_approval, log_only, PolicyAction-discrete, PolicyRule, Param,
  PolicyGuard, ValidationResult, action_eq,
}
use photon_kernel_sil.Guard.Checks.{
  insert_rule, by_priority, get_rules, rule_matches, match_rules, match_policy_rules,
  apply_risk_override,
}
use photon_kernel_sil.Guard.Approvals.{
  Request, detect_injections, build_validation_result, check_tool_call,
}

any-insert :
    (p : PolicyRule → Bool) (r : PolicyRule) (rs : List PolicyRule)
    → any p (insert_rule r rs) ≡ (p r || any p rs)
unfolding insert_rule
any-insert p r [] = refl
any-insert p r (x ∷ rs) = ground (arith, any-insert p r rs)

any-by_priority : (p : PolicyRule → Bool) (rs : List PolicyRule) → any p (by_priority rs) ≡ any p rs
unfolding by_priority
any-by_priority p [] = refl
any-by_priority p (r ∷ rs) = ground (arith, any-insert p r (by_priority rs), any-by_priority p rs)

-- A call is refused: it is neither allowed nor left to a person.
abbrev pub refusal : ValidationResult → Bool
refusal result = not result.allowed && not result.requires_approval

module _ (search : String → String → Bool) (tool_name : String) (params : Dict String Param)
    (role : Option String) where
  -- The rule is enabled, matches the call and denies it.
  abbrev pub denies : PolicyRule → Bool
  denies rule =
      (rule.enabled && rule_matches search rule tool_name params role) && (rule.action == deny)

  deny_is_deny : (deny == deny) ≡ true
  unfolding PolicyAction-discrete
  deny_is_deny = refl

  approval_is_not : (require_approval == deny) ≡ false
  unfolding PolicyAction-discrete
  approval_is_not = refl

  match_rules-denies :
      (rules : List PolicyRule) (matched : List String) (action : PolicyAction) (reason : String)
      → (action == deny) ≡ false
      → ((match_rules search tool_name params role rules matched action reason).1 == deny)
        ≡ any denies rules
  unfolding match_rules
  match_rules-denies [] matched action reason h = h
  match_rules-denies (rule ∷ rules) matched action reason h =
      elim (Bool-cases (rule.enabled && rule_matches search rule tool_name params role)) [
        | inr e ↦ rw e (match_rules-denies rules matched action reason h)
        | inl e ↦ elim (Bool-cases (rule.action == deny)) [
          | inl d ↦ rw (e, d, deny_is_deny) deny_is_deny
          | inr d ↦ elim (Bool-cases (rule.action == require_approval && not (action == deny))) [
            | inl a ↦
                rw (e, d, a, approval_is_not)
                  (match_rules-denies rules _ require_approval _ approval_is_not)
            | inr a ↦ rw (e, d, a, h) (match_rules-denies rules _ action reason h)
          ]
        ]
      ]

  pub match_policy_rules-denies :
      (g : PolicyGuard)
      → ((match_policy_rules search g tool_name params role).1 == deny)
        ≡ any denies (values g.rules)
  unfolding match_policy_rules get_rules PolicyAction-discrete
  match_policy_rules-denies g =
      match_rules-denies (by_priority (values g.rules)) [] allow "" refl
      ∙ any-by_priority denies (values g.rules)

override-denies :
    (two_digits : ℕ → String) (risk_score : ℕ) (action : PolicyAction) (reason : String)
    (patterns : List String)
    → ((apply_risk_override two_digits risk_score action reason patterns).0 == deny)
      ≡ (ltb 7000 risk_score || (action == deny))
unfolding apply_risk_override PolicyAction-discrete
override-denies two_digits risk_score action reason patterns = ground arith

refusal-build :
    (clock : ℕ → ℕ) (g : PolicyGuard) (r : Request) (final : PolicyAction × String)
    (matched : List String) (risk_score : ℕ) (patterns : List String)
    → refusal (build_validation_result clock g r final matched risk_score patterns).1
      ≡ (final.0 == deny)
unfolding build_validation_result PolicyAction-discrete
refusal-build clock g r (allow, reason) matched risk_score patterns = refl
refusal-build clock g r (deny, reason) matched risk_score patterns = refl
refusal-build clock g r (require_approval, reason) matched risk_score patterns = refl
refusal-build clock g r (log_only, reason) matched risk_score patterns = refl

module _ (search : String → String → Bool) (lower : String → String) (two_digits : ℕ → String) where
  -- A tool call is refused exactly when its score of risk is over 0.7 or some enabled rule that
  -- matches the call denies it, whatever the order and the priorities of the rules.
  pub check_tool_call-refusal :
      (clock : ℕ → ℕ) (g : PolicyGuard) (r : Request)
      → refusal (check_tool_call search lower two_digits clock g r).1 ≡ (
          ltb 7000 (detect_injections search lower r).2
          || any (denies search r.tool_name r.params r.agent_role) (values g.rules))
  unfolding check_tool_call
  check_tool_call-refusal clock g r =
      let (injected, patterns, risk_score) = detect_injections search lower r in
      let (matched, action, reason) =
        match_policy_rules search g r.tool_name r.params r.agent_role in
      refusal-build clock _ r (apply_risk_override two_digits risk_score action reason patterns)
        matched risk_score patterns
      ∙ override-denies two_digits risk_score action reason patterns
      ∙ ap (λ d. ltb 7000 risk_score || d)
          (match_policy_rules-denies search r.tool_name r.params r.agent_role g)
