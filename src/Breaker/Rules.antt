-- ===== src/Breaker/Rules.antt =====
-- evolution/security_circuit_breaker.py: the default rules, and which rule an event sets off.
use photon_kernel_sil.Prelude.{
  ℕ, ◌+◌, ◌*◌, String, Bool, true, not, ◌&&◌, List, [], ◌∷◌, Option, none, some, ltb, leb, ◌==◌,
  string_eq, count, if◌then◌else◌,
}
use photon_kernel_sil.Prelude.Dict.{get_or}
use photon_kernel_sil.Breaker.Types.{
  Level, l1_instance, l2_node, l3_cluster, TriggerType, seccomp_violation_surge, vm_exit_anomaly,
  high_risk_syscall, c2_connection, resource_spike, rule_confidence_drop, audit_hmac_anomaly,
  SecurityEvent, TriggerRule, Breaker, Clock, later, second, trigger_eq,
}

rule : TriggerType → Level → ℕ → ℕ → String → ℕ → TriggerRule
rule trigger level threshold window description cooldown = record {
  trigger_type = trigger;
  level = level;
  threshold = threshold;
  window_seconds = window;
  description = description;
  enabled = true;
  cooldown_seconds = cooldown;
}

-- `_build_default_rules`.
unfoldable pub default_rules : List TriggerRule
unfolding rule
default_rules =
    rule high_risk_syscall l1_instance 1000 60 "进程尝试 ptrace/mount/init_module 等高危系统调用" 60
    ∷ rule seccomp_violation_surge l2_node 100000 60 "seccomp 违规率突增" 300
    ∷ rule vm_exit_anomaly l2_node 10000 60 "VM-Exit 异常事件（VMCALL/MSR_WRITE/TRIPLE_FAULT）" 300
    ∷ rule c2_connection l1_instance 1000 60 "网络连接到已知 C2 服务器" 60
    ∷ rule resource_spike l1_instance 3000 300 "资源使用异常（CPU/内存突增3倍）" 120
    ∷ rule audit_hmac_anomaly l3_cluster 1000 60 "审计链 HMAC 异常（日志被篡改）" 600
    ∷ rule rule_confidence_drop l2_node 10 600 "红蓝对抗规则置信度骤降" 600
    ∷ []

-- The events of one type at or after the start of the rule's window.
unfoldable pub in_window : TriggerType → ℕ → ℕ → List SecurityEvent → ℕ
in_window trigger now window events =
    count (λ e. (e.trigger_type == trigger) && leb now (e.timestamp + window * second)) events

-- The threshold test: a count for most types, a reading of the metadata for two.
unfoldable pub triggered : SecurityEvent → ℕ → TriggerRule → Bool
triggered event n r = elim event.trigger_type [
  | resource_spike ↦ leb r.threshold (get_or event.metadata "spike_ratio" 0)
  | rule_confidence_drop ↦ ltb (get_or event.metadata "confidence" 1000) r.threshold
  | _ ↦ leb r.threshold (n * 1000)
]

-- The loop of `report_event` over the rules: the first rule that fires, and the readings of the
-- clock that are left. A rule in its cooldown has read the clock once, a quiet rule twice.
unfoldable pub first_firing :
    Clock → Breaker → SecurityEvent → List TriggerRule → Option (TriggerRule × Clock)
first_firing clock b event [] = none
first_firing clock b event (r ∷ rs) =
    let skipped = first_firing clock b event rs in
    let cooling = first_firing (later 1 clock) b event rs in
    let quiet = first_firing (later 2 clock) b event rs in
    let last = get_or b.last_trigger_time event.trigger_type 0 in
    let n = in_window event.trigger_type (clock 1) r.window_seconds b.events in
    if not r.enabled
    then skipped
    else if not (r.trigger_type == event.trigger_type)
    then skipped
    else if ltb (clock 0) (last + r.cooldown_seconds * second)
    then cooling
    else if triggered event n r
    then some (r, later 2 clock)
    else quiet

-- `update_rule`: the attributes that are given, of the first rule of the type.
pub record RuleUpdate : Type 0 where
  pub trigger_type : Option TriggerType
  pub level : Option Level
  pub threshold : Option ℕ
  pub window_seconds : Option ℕ
  pub description : Option String
  pub enabled : Option Bool
  pub cooldown_seconds : Option ℕ

abbrev given_or {ℓ} : {A : Type ℓ} → Option A → A → A
given_or none a = a
given_or (some a) _ = a

unfoldable pub set_attributes : RuleUpdate → TriggerRule → TriggerRule
set_attributes u r = record {
  trigger_type = given_or u.trigger_type r.trigger_type;
  level = given_or u.level r.level;
  threshold = given_or u.threshold r.threshold;
  window_seconds = given_or u.window_seconds r.window_seconds;
  description = given_or u.description r.description;
  enabled = given_or u.enabled r.enabled;
  cooldown_seconds = given_or u.cooldown_seconds r.cooldown_seconds;
}

unfoldable pub update_first : TriggerType → RuleUpdate → List TriggerRule → List TriggerRule
update_first trigger u [] = []
update_first trigger u (r ∷ rs) =
    let rest = update_first trigger u rs in
    if r.trigger_type == trigger then set_attributes u r ∷ rs else r ∷ rest

unfoldable pub update_rule : Breaker → TriggerType → RuleUpdate → Breaker
unfolding update_first set_attributes
update_rule b trigger u = record b { rules = update_first trigger u b.rules }
