-- ===== src/Guard/Checks.antt =====
-- evolution/policy_guard.py: `PolicyGuard`, the rules and the check of a tool call. `search` is the
-- search for a regular expression, `two_digits` the format `.2f` of a score. The search of the
-- knowledge base in step 3 has no effect on the result.
use photon_kernel_sil.Prelude.{
  ℕ, String, Bool, true, false, not, ◌&&◌, List, [], ◌∷◌, ◌++◌, Option, none, some, ltb, leb, ◌==◌,
  nat_eq, string_eq, keep, take, if◌then◌else◌,
}
use photon_kernel_sil.Prelude.Dict.{delete, Dict, get, put, values}
use photon_kernel_sil.Prelude.Text.{text_append, given}
use photon_kernel_sil.Guard.Types.{
  PolicyType, PolicyAction, allow, deny, require_approval, PolicyRule, Param, text, other,
  PolicyGuard, type_eq, action_eq,
}

abbrev pub second : ℕ
second = 1000000

-- A guard with these rules
unfoldable pub new_guard : Dict String PolicyRule → PolicyGuard
new_guard rules = record {
  rules = rules;
  approval_queue = [];
  total_checks = 0;
  allowed = 0;
  denied = 0;
  needs_approval = 0;
  injection_detected = 0;
}

unfoldable pub add_rule : PolicyGuard → PolicyRule → PolicyGuard × String
add_rule g rule = (record g { rules = put g.rules rule.rule_id rule }, rule.rule_id)

unfoldable pub remove_rule : PolicyGuard → String → PolicyGuard × Bool
unfolding delete
remove_rule g rule_id = elim (get g.rules rule_id) [
  | none ↦ (g, false)
  | some rule ↦ (record g { rules = delete g.rules rule_id }, true)
]

-- `sorted(rules, key=priority)` is stable.
unfoldable pub insert_rule : PolicyRule → List PolicyRule → List PolicyRule
insert_rule r [] = r ∷ []
insert_rule r (x ∷ xs) =
    let rest = insert_rule r xs in if leb r.priority x.priority then r ∷ x ∷ xs else x ∷ rest

unfoldable pub by_priority : List PolicyRule → List PolicyRule
by_priority [] = []
by_priority (r ∷ rs) = insert_rule r (by_priority rs)

unfoldable pub get_rules : Option PolicyType → PolicyGuard → List PolicyRule
get_rules none g = by_priority (values g.rules)
get_rules (some policy_type) g =
    by_priority (keep (λ r. r.policy_type == policy_type) (values g.rules))

-- `str(value)`
abbrev pub printed : Param → String
printed (text s) = s
printed (other s) = s

module _ (search : String → String → Bool) where
  -- Every pattern of the rule has its parameter, and matches it.
  unfoldable pub params_match : Dict String String → Dict String Param → Bool
  params_match [] params = true
  params_match ((key, pattern) ∷ patterns) params =
      elim (get params key) [ none ↦ false | some value ↦ search pattern (printed value) ]
      && params_match patterns params

  abbrev pub tool_matches : Option String → String → Bool
  tool_matches none tool_name = true
  tool_matches (some pattern) tool_name = search pattern tool_name

  abbrev pub role_matches : Option String → Option String → Bool
  role_matches none agent_role = true
  role_matches (some role) none = false
  role_matches (some role) (some agent_role) = agent_role == role

  unfoldable pub rule_matches : PolicyRule → String → Dict String Param → Option String → Bool
  unfolding params_match
  rule_matches rule tool_name params agent_role =
      tool_matches (given rule.tool_pattern) tool_name
      && (role_matches (given rule.agent_role) agent_role
          && params_match rule.param_patterns params)

unfoldable pub apply_rule_action : PolicyRule → PolicyAction → String → PolicyAction × String
apply_rule_action rule current reason =
    if rule.action == deny
    then (deny, text_append "规则 " (text_append rule.rule_id (text_append " 拒绝: " rule.description)))
    else if rule.action == require_approval && not (current == deny)
    then (
      require_approval,
      text_append "规则 " (text_append rule.rule_id (text_append " 需要审批: " rule.description)),
    )
    else (current, reason)

module _ (search : String → String → Bool) where
  -- The loop of `_match_policy_rules`, from what the rules before have given
  unfoldable pub match_rules :
      String
      → Dict String Param
      → Option String
      → List PolicyRule
      → List String
      → PolicyAction
      → String
      → List String × PolicyAction × String
  unfolding apply_rule_action
  match_rules tool_name params role [] matched action reason = (matched, action, reason)
  match_rules tool_name params role (rule ∷ rules) matched action reason =
      let (action', reason') = apply_rule_action rule action reason in
      let matched' = matched ++ rule.rule_id ∷ [] in
      let skip = match_rules tool_name params role rules matched action reason in
      let next = match_rules tool_name params role rules matched' action' reason' in
      if rule.enabled && rule_matches search rule tool_name params role
      then if action' == deny then (matched', action', reason') else next
      else skip

  unfoldable pub match_policy_rules :
      PolicyGuard → String → Dict String Param → Option String → List String × PolicyAction × String
  match_policy_rules g tool_name params role =
      match_rules tool_name params role (get_rules none g) [] allow ""

-- `", ".join(parts)`
abbrev comma_joined : List String → String
comma_joined [] = ""
comma_joined (s ∷ []) = s
comma_joined (s ∷ t ∷ rest) = text_append s (text_append ", " (comma_joined (t ∷ rest)))

unfoldable pub apply_risk_override :
    (ℕ → String) → ℕ → PolicyAction → String → List String → PolicyAction × String
apply_risk_override two_digits risk_score action reason patterns =
    if ltb 7000 risk_score
    then (
      deny,
      text_append "检测到提示注入风险(" (
          text_append (two_digits risk_score)
            (text_append ")，模式: " (comma_joined (take 3 patterns)))),
    )
    else if ltb 4000 risk_score && (action == allow)
    then (
      require_approval,
      text_append "检测到可疑内容(风险" (text_append (two_digits risk_score) ")，需要人工审批"),
    )
    else (action, reason)
