-- ===== src/Guard/Tests.antt =====
-- The theorems on the policy guard at concrete inputs.
use photon_kernel_sil.Prelude.{
  String, Bool, true, ◌||◌, List, [], ◌∷◌, none, some, ◌≡◌, ltb, string_eq, any,
}
use photon_kernel_sil.Prelude.Dict.{values}
use photon_kernel_sil.Prelude.Text.{contains, decimal}
use photon_kernel_sil.Guard.Types.{security, deny, PolicyRule, text, PolicyGuard}
use photon_kernel_sil.Guard.Checks.{new_guard}
use photon_kernel_sil.Guard.Approvals.{Request, detect_injections, check_tool_call}
use photon_kernel_sil.Guard.Denials.{refusal, denies, check_tool_call-refusal}
use photon_kernel_sil.Guard.Counts.{Operation, checks, approves}

-- A search for a plain text in place of a regular expression
abbrev search : String → String → Bool
search pattern s = contains pattern s

abbrev same : String → String
same s = s

abbrev no_shutdown : PolicyRule
no_shutdown = record {
  rule_id = "no_shutdown";
  policy_type = security;
  action = deny;
  description = "no shutdown";
  tool_pattern = some "shell";
  param_patterns = ("command", "shutdown") ∷ [];
  agent_role = none;
  priority = 10;
  enabled = true;
}

abbrev guard : PolicyGuard
guard = new_guard (("no_shutdown", no_shutdown) ∷ [])

abbrev request : Request
request = record {
  agent_id = "a";
  tool_name = "shell";
  params = ("command", text "shutdown now") ∷ [];
  history = [];
  agent_role = none;
}

check_tool_call-refusal_example :
    refusal (check_tool_call search same decimal (λ k. k) guard request).1 ≡ (
      ltb 7000 (detect_injections search same request).2
      || any (denies search "shell" request.params none) (values guard.rules))
check_tool_call-refusal_example = check_tool_call-refusal search same decimal (λ k. k) guard request

abbrev history : List Operation
history = checks (λ k. k) request ∷ approves 9 "approval_0_0" "admin" ∷ []
