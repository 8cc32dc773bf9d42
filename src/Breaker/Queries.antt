-- ===== src/Breaker/Queries.antt =====
-- evolution/security_circuit_breaker.py: the reports on the state, and the indicators of known hostile servers.
-- `lower` stands for `str.lower`. A member of an enumeration stands for its `.value`.
use photon_kernel_sil.Prelude.{
  ℕ, ◌+◌, ◌-◌, String, Bool, List, [], ◌∷◌, ◌++◌, Option, ◌==◌, Eq, string_eq, length, count, keep,
  any, drop, nat_eq, if◌then◌else◌,
}
use photon_kernel_sil.Prelude.Dict.{Dict, get_or, put}
use photon_kernel_sil.Breaker.Types.{
  Level, BreakerState, TriggerType, Action, SecurityEvent, TriggerRule, Breaker, level_eq,
  trigger_eq,
}
use photon_kernel_sil.Breaker.Recovery.{is_open}

-- `counts[key(x)] = counts.get(key(x), 0) + 1` for each element
unfoldable pub tally {ℓ κ} :
    {A : Type ℓ} {K : Type κ} ⦃e : Eq K⦄ → (A → K) → Dict K ℕ → List A → Dict K ℕ
tally key counts [] = counts
tally key counts (x ∷ xs) = tally key (put counts (key x) (get_or counts (key x) 0 + 1)) xs

pub record Summary : Type 0 where
  pub state : BreakerState
  pub level : Option Level
  pub node_id : String
  pub active_actions : List Action
  pub total_events : ℕ
  pub total_actions : ℕ

unfoldable pub get_current_state : Breaker → Summary
unfolding is_open
get_current_state b = record {
  state = b.current_state;
  level = b.current_level;
  node_id = b.node_id;
  active_actions = keep is_open b.actions;
  total_events = length b.events;
  total_actions = length b.actions;
}

-- `self._actions[-limit:]`; a limit of 0 is the slice `[0:]`, the whole list.
unfoldable pub get_action_history : Breaker → ℕ → List Action
get_action_history b limit =
    if limit == 0 then b.actions else drop (length b.actions - limit) b.actions

pub record Stats : Type 0 where
  pub node_id : String
  pub current_state : BreakerState
  pub current_level : Option Level
  pub total_events : ℕ
  pub total_actions : ℕ
  pub actions_by_level : Dict Level ℕ
  pub events_by_trigger : Dict TriggerType ℕ
  pub active_rules : ℕ
  pub c2_indicators : ℕ
  pub auto_recover_enabled : Bool

unfoldable pub get_stats : Breaker → Stats
unfolding tally
get_stats b = record {
  node_id = b.node_id;
  current_state = b.current_state;
  current_level = b.current_level;
  total_events = length b.events;
  total_actions = length b.actions;
  actions_by_level = tally (λ (a : Action). a.level) [] b.actions;
  events_by_trigger = tally (λ (e : SecurityEvent). e.trigger_type) [] b.events;
  active_rules = count (λ (r : TriggerRule). r.enabled) b.rules;
  c2_indicators = length b.c2_indicators;
  auto_recover_enabled = b.auto_recover_enabled;
}

module _ (lower : String → String) where
  unfoldable pub add_c2_indicator : Breaker → String → Breaker
  add_c2_indicator b indicator =
      if any (λ i. i == lower indicator) b.c2_indicators
      then b
      else record b { c2_indicators = b.c2_indicators ++ lower indicator ∷ [] }

  unfoldable pub check_c2_connection : Breaker → String → Bool
  check_c2_connection b destination = any (λ i. i == lower destination) b.c2_indicators
