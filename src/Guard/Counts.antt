-- ===== src/Guard/Counts.antt =====
-- The counters of the guard over its histories, and the settlement of approvals.
use photon_kernel_sil.Prelude.{ℕ, ◌+◌, String, Bool, List, [], ◌∷◌, ◌≡◌, string_eq, length}
use photon_kernel_sil.Prelude.Dict.{Dict}
use photon_kernel_sil.Guard.Types.{PolicyRule, PolicyGuard, approval_eq}
use photon_kernel_sil.Guard.Checks.{add_rule, remove_rule}
use photon_kernel_sil.Guard.Approvals.{Request, check_tool_call, approve, reject}

-- Each check was counted under one of its three results, and each that needs a person is in the queue.
pub record IsBalanced (g : PolicyGuard) : Type 0 where
  pub counted : g.total_checks ≡ g.allowed + g.denied + g.needs_approval
  pub queued : length g.approval_queue ≡ g.needs_approval

pub data Operation : Type 0 where
  checks : (ℕ → ℕ) → Request → Operation
  adds : PolicyRule → Operation
  removes : String → Operation
  approves : ℕ → String → String → Operation
  rejects : ℕ → String → String → String → Operation

module _ (search : String → String → Bool) (lower : String → String) (two_digits : ℕ → String) where
  unfoldable pub step : PolicyGuard → Operation → PolicyGuard
  step g (checks clock r) = (check_tool_call search lower two_digits clock g r).0
  step g (adds rule) = (add_rule g rule).0
  step g (removes rule_id) = (remove_rule g rule_id).0
  step g (approves now id who) = (approve now g id who).0
  step g (rejects now id who reason) = (reject now g id who reason).0

  unfoldable pub run : PolicyGuard → List Operation → PolicyGuard
  run g [] = g
  run g (o ∷ os) = run (step g o) os
