-- ===== src/Breaker/Engine.antt =====
-- evolution/security_circuit_breaker.py: reporting an event, and the action that it sets off.
-- `digest` stands for the SHA-256 of the event's id and the time, cut to 16 hexadecimal digits.
-- A call holds the lock from its first change to its last, so it is one step.
use photon_kernel_sil.Prelude.{
  ℕ, ◌+◌, ◌*◌, ◌/◌, ◌++◌, String, Bool, true, false, List, [], ◌∷◌, Option, none, some, string_eq,
}
use photon_kernel_sil.Prelude.Dict.{put}
use photon_kernel_sil.Prelude.Text.{given, decimal, text_append}
use photon_kernel_sil.Breaker.Types.{
  Level, l1_instance, l2_node, l3_cluster, l4_emergency, closed, opened, manual_trigger,
  SecurityEvent, Action, TriggerRule, isolation, alert, Callback, Breaker, Clock, later, second,
  remember, state_eq, trigger_eq,
}
use photon_kernel_sil.Breaker.Rules.{default_rules, first_firing}

unfoldable pub init : String → Bool → Bool → Bool → Breaker
unfolding default_rules
init node_id alerts isolates auto_recover = record {
  node_id = node_id;
  alert_callback = alerts;
  isolation_callback = isolates;
  auto_recover_enabled = auto_recover;
  events = [];
  actions = [];
  current_state = closed;
  current_level = none;
  last_trigger_time = [];
  rules = default_rules;
  c2_indicators = [];
  running = true;
  callbacks = [];
}

-- `rule.level in (L3_CLUSTER, L4_EMERGENCY)`
abbrev pub needs_confirmation : Level → Bool
needs_confirmation l1_instance = false
needs_confirmation l2_node = false
needs_confirmation l3_cluster = true
needs_confirmation l4_emergency = true

-- Five minutes for an instance, ten for a node, and no automatic recovery above.
abbrev pub recovery_time : Level → ℕ → Option ℕ
recovery_time l1_instance now = some (now + 300 * second)
recovery_time l2_node now = some (now + 600 * second)
recovery_time l3_cluster now = none
recovery_time l4_emergency now = none

abbrev one_or_none : Option String → List String
one_or_none none = []
one_or_none (some s) = s ∷ []

abbrev or_node : Option String → String → String
or_node none node = node
or_node (some s) node = s

isolations : Bool → Option String → Level → List Callback
isolations true (some instance_id) level = isolation instance_id level ∷ []
isolations true none level = []
isolations false instance_id level = []

alerts : Bool → Action → List Callback
alerts true a = alert a ∷ []
alerts false a = []

manual_event : Clock → String → String → Option String → SecurityEvent
manual_event clock node_id reason instance_id = record {
  event_id = text_append "manual_" (decimal (clock 0 / second));
  timestamp = clock 1;
  trigger_type = manual_trigger;
  severity = "critical";
  instance_id = instance_id;
  node_id = some node_id;
  description = reason;
  metadata = [];
  source = "manual";
}

manual_rule : Level → String → TriggerRule
manual_rule level reason = record {
  trigger_type = manual_trigger;
  level = level;
  threshold = 1000;
  window_seconds = 60;
  description = reason;
  enabled = true;
  cooldown_seconds = 0;
}

module _ (digest : String → ℕ → String) where
  -- The action of `_execute_circuit_breaker`. The clock is read for the id, for the time stamp and
  -- for the time of recovery.
  unfoldable pub new_action : Clock → Breaker → SecurityEvent → TriggerRule → Action
  new_action clock b event r = record {
    action_id = digest event.event_id (clock 0);
    timestamp = clock 1;
    level = r.level;
    state = opened;
    trigger_event_id = event.event_id;
    description = r.description;
    affected_instances = one_or_none (given event.instance_id);
    affected_nodes = or_node (given event.node_id) b.node_id ∷ [];
    auto_recover_at = recovery_time r.level (clock 2);
    requires_manual_confirmation = needs_confirmation r.level;
    recovered_at = none;
    recovered_by = none;
  }

  -- `_execute_circuit_breaker`. Where a higher level is in force the source only logs a warning.
  unfoldable pub execute : Clock → Breaker → SecurityEvent → TriggerRule → Breaker × Action
  unfolding new_action isolations alerts
  execute clock b event r =
      let action = new_action clock b event r in
      (
        record b {
          current_state = opened;
          current_level = some r.level;
          actions = b.actions ++ action ∷ [];
          callbacks =
              b.callbacks
              ++ (isolations b.isolation_callback (given event.instance_id) r.level
                  ++ alerts b.alert_callback action);
        },
        action,
      )

  abbrev pub fire : Breaker → SecurityEvent → Option (TriggerRule × Clock) → Breaker × Option Action
  fire b event none = (b, none)
  fire b event (some (r, clock)) =
      let (b', action) =
        execute (later 1 clock)
          (record b { last_trigger_time = put b.last_trigger_time event.trigger_type (clock 0) })
          event r in
      (b', some action)

  unfoldable pub report_event : Clock → Breaker → SecurityEvent → Breaker × Option Action
  unfolding remember
  report_event clock b event =
      let b' = record b { events = remember b.events event } in
      fire b' event (first_firing clock b' event b'.rules)

  -- `manual_trigger`: the event's id and its time stamp are two readings of the clock.
  unfoldable pub trigger_manually :
      Clock → Breaker → Level → String → Option String → Breaker × Action
  unfolding manual_event manual_rule
  trigger_manually clock b level reason instance_id =
      execute (later 2 clock) b (manual_event clock b.node_id reason instance_id)
        (manual_rule level reason)
