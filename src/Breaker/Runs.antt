-- ===== src/Breaker/Runs.antt =====
-- Histories of a breaker: the methods under the lock, in any order, the recovery thread among them.
use photon_kernel_sil.Prelude.{ℕ, String, List, [], ◌∷◌, Option}
use photon_kernel_sil.Breaker.Types.{Level, TriggerType, SecurityEvent, Breaker, Clock}
use photon_kernel_sil.Breaker.Rules.{RuleUpdate, update_rule}
use photon_kernel_sil.Breaker.Engine.{report_event, trigger_manually}
use photon_kernel_sil.Breaker.Recovery.{manual_recover, recovery_round, shutdown}
use photon_kernel_sil.Breaker.Queries.{add_c2_indicator}

pub data Operation : Type 0 where
  reports : Clock → SecurityEvent → Operation
  triggers : Clock → Level → String → Option String → Operation
  recovers : ℕ → String → String → Operation
  recovery_rounds : ℕ → Operation
  updates : TriggerType → RuleUpdate → Operation
  indicates : String → Operation
  shuts_down : Operation

module _ (digest : String → ℕ → String) (lower : String → String) where
  unfoldable pub step : Breaker → Operation → Breaker
  step b (reports clock event) = (report_event digest clock b event).0
  step b (triggers clock level reason instance_id) =
      (trigger_manually digest clock b level reason instance_id).0
  step b (recovers now action_id operator) = (manual_recover now b action_id operator).0
  step b (recovery_rounds now) = recovery_round now b
  step b (updates trigger u) = update_rule b trigger u
  step b (indicates indicator) = add_c2_indicator lower b indicator
  step b shuts_down = shutdown b

  unfoldable pub run : Breaker → List Operation → Breaker
  run b [] = b
  run b (o ∷ os) = run (step b o) os
