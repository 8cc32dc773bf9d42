-- ===== src/Guard/Approvals.antt =====
-- evolution/policy_guard.py: `PolicyGuard`, the result of a check and the queue of approvals.
use photon_kernel_sil.Prelude.{
  ℕ, ◌+◌, ◌/◌, max, String, Bool, true, false, ◌&&◌, List, [], ◌∷◌, ◌++◌, Option, none, some, ltb,
  ◌==◌, string_eq, keep, length, if◌then◌else◌,
}
use photon_kernel_sil.Prelude.Dict.{Dict, values}
use photon_kernel_sil.Prelude.Text.{text_append, decimal}
use photon_kernel_sil.Guard.Types.{
  PolicyAction, deny, require_approval, ValidationResult, Param, text, other, Approval, PolicyGuard,
  pending, approved, rejected, denied, needs_approval, allowed, approval_eq,
}
use photon_kernel_sil.Guard.Detector.{Message, detect, detect_conversation}
use photon_kernel_sil.Guard.Checks.{second, match_policy_rules, apply_risk_override}

-- What one check asks
pub record Request : Type 0 where
  pub agent_id : String
  pub tool_name : String
  pub params : Dict String Param
  pub history : List Message
  pub agent_role : Option String

module _ (search : String → String → Bool) (lower : String → String) where
  -- The loop over the parameters in `_detect_injections`
  unfoldable pub detect_params : List Param → List String → ℕ → List String × ℕ
  detect_params [] patterns risk_score = (patterns, risk_score)
  detect_params (other s ∷ params) patterns risk_score = detect_params params patterns risk_score
  detect_params (text s ∷ params) patterns risk_score =
      let result = detect search lower s "tool_output" in
      let more =
        detect_params params (patterns ++ result.patterns) (max risk_score result.risk_score) in
      let rest = detect_params params patterns risk_score in
      if result.is_injection then more else rest

  -- Whether the conversation is an injection, and what `_detect_injections` gives. A conversation
  -- without messages is none.
  unfoldable pub detect_injections : Request → Bool × List String × ℕ
  unfolding detect_params
  detect_injections r =
      let conversation = detect_conversation search lower r.history in
      let (patterns, risk_score) = detect_params (values r.params) [] 0 in
      let (patterns', risk_score') =
        detect_params (values r.params) conversation.cross_message_patterns
          conversation.overall_risk_score in
      if ltb 0 (length r.history) && conversation.is_injection
      then (true, patterns', risk_score')
      else (false, patterns, risk_score)

unfoldable pub new_approval : (ℕ → ℕ) → PolicyGuard → Request → String → ℕ → Approval
new_approval clock g r reason risk_score = record {
  approval_id = text_append "approval_" (
      text_append (decimal (clock 0 / second))
        (text_append "_" (decimal (length g.approval_queue))));
  agent_id = r.agent_id;
  tool_name = r.tool_name;
  params = r.params;
  reason = reason;
  risk_score = risk_score;
  timestamp = clock 1;
  status = pending;
  approver = none;
  approved_at = none;
  reject_reason = none;
  rejected_at = none;
}

-- `_build_validation_result`
unfoldable pub build_validation_result :
    (ℕ → ℕ)
    → PolicyGuard
    → Request
    → PolicyAction × String
    → List String
    → ℕ
    → List String
    → PolicyGuard × ValidationResult
unfolding new_approval
build_validation_result clock g r (deny, reason) matched risk_score patterns = (
  record g { denied = g.denied + 1 },
  record {
    code = denied;
    allowed = false;
    reason = reason;
    matched_rules = matched;
    risk_score = risk_score;
    requires_approval = false;
    approval_reason = "";
    suspicious_patterns = patterns;
    timestamp = clock 0;
  },
)
build_validation_result clock g r (require_approval, reason) matched risk_score patterns = (
  record g {
    needs_approval = g.needs_approval + 1;
    approval_queue = g.approval_queue ++ new_approval clock g r reason risk_score ∷ [];
  },
  record {
    code = needs_approval;
    allowed = false;
    reason = reason;
    matched_rules = matched;
    risk_score = risk_score;
    requires_approval = true;
    approval_reason = reason;
    suspicious_patterns = patterns;
    timestamp = clock 2;
  },
)
build_validation_result clock g r (_, reason) matched risk_score patterns = (
  record g { allowed = g.allowed + 1 },
  record {
    code = allowed;
    allowed = true;
    reason = "";
    matched_rules = matched;
    risk_score = risk_score;
    requires_approval = false;
    approval_reason = "";
    suspicious_patterns = patterns;
    timestamp = clock 0;
  },
)

module _ (search : String → String → Bool) (lower : String → String) (two_digits : ℕ → String) where
  unfoldable pub check_tool_call : (ℕ → ℕ) → PolicyGuard → Request → PolicyGuard × ValidationResult
  unfolding detect_injections
  check_tool_call clock g r =
      let (injected, patterns, risk_score) = detect_injections search lower r in
      let (matched, action, reason) =
        match_policy_rules search g r.tool_name r.params r.agent_role in
      let final = apply_risk_override two_digits risk_score action reason patterns in
      let g' = record g {
        total_checks = g.total_checks + 1;
        injection_detected = if injected then g.injection_detected + 1 else g.injection_detected;
      } in
      build_validation_result clock g' r final matched risk_score patterns

-- The loop of `approve` and of `reject`: the first pending entry with the id is changed.
unfoldable pub settle : String → (Approval → Approval) → List Approval → Option (List Approval)
settle id f [] = none
settle id f (a ∷ queue) =
    let rest = settle id f queue in
    if a.approval_id == id && (a.status == pending)
    then some (f a ∷ queue)
    else elim rest [ none ↦ none | some queue' ↦ some (a ∷ queue') ]

abbrev pub settled : PolicyGuard → Option (List Approval) → PolicyGuard × Bool
settled g none = (g, false)
settled g (some queue) = (record g { approval_queue = queue }, true)

unfoldable pub approve : ℕ → PolicyGuard → String → String → PolicyGuard × Bool
unfolding settle
approve now g id who = settled g (
    settle id (λ a. record a { status = approved; approver = some who; approved_at = some now })
      g.approval_queue)

unfoldable pub reject : ℕ → PolicyGuard → String → String → String → PolicyGuard × Bool
unfolding settle
reject now g id who reason = settled g (
    settle id
      (λ a. record a {
        status = rejected;
        approver = some who;
        reject_reason = some reason;
        rejected_at = some now;
      })
      g.approval_queue)

unfoldable pub get_pending_approvals : PolicyGuard → List Approval
get_pending_approvals g = keep (λ a. a.status == pending) g.approval_queue
