-- ===== src/Breaker/Firing.antt =====
-- Which events set off an action: the loop over the rules against a description of a firing rule.
use photon_kernel_sil.Prelude.{
  ℕ, ◌+◌, ◌*◌, ◌<◌, ◌≤◌, String, Bool, true, false, List, [], ◌∷◌, none, some, ◌≡◌, ◌⊎◌, inl, inr,
  sym, subst, arith, All, All-mono, count, count-append, ◌++◌, ◌==◌, ltb→lt, ltb→le, Bool-cases,
  Option-cases, ltb, ==_iff,
}
use photon_kernel_sil.Prelude.Dict.{get_or}
use photon_kernel_sil.Breaker.Types.{
  Level, order, SecurityEvent, Action, TriggerRule, Breaker, Clock, later, second, remember, opened,
  trigger_eq, BreakerState-discrete,
}
use photon_kernel_sil.Breaker.Rules.{in_window, triggered, first_firing}
use photon_kernel_sil.Breaker.Recovery.{is_open}
use photon_kernel_sil.Breaker.Engine.{execute, report_event}

-- The time until which a rule is in its cooldown.
abbrev pub cool_until : Breaker → SecurityEvent → TriggerRule → ℕ
cool_until b event r = get_or b.last_trigger_time event.trigger_type 0 + r.cooldown_seconds * second

-- The threshold test of a rule, its window ending at a time.
abbrev pub over : Breaker → SecurityEvent → TriggerRule → ℕ → Bool
over b event r now = triggered event (in_window event.trigger_type now r.window_seconds b.events) r

-- The rule was enabled, of the event's type, out of its cooldown and over its threshold.
pub record Fires (clock : Clock) (b : Breaker) (event : SecurityEvent) (r : TriggerRule)
    : Type 0 where
  pub enabled : r.enabled ≡ true
  pub matching : r.trigger_type ≡ event.trigger_type
  pub reading : ℕ
  pub cooled : cool_until b event r ≤ clock reading
  pub exceeded : over b event r (clock (reading + 1)) ≡ true

-- The rule was disabled, of another type, in its cooldown, or under its threshold.
abbrev pub Silent : Clock → Breaker → SecurityEvent → TriggerRule → Type 0
Silent clock b event r =
    (r.enabled ≡ false)
    ⊎ (((r.trigger_type == event.trigger_type) ≡ false)
        ⊎ ((i : ℕ) × ((clock i < cool_until b event r) ⊎ (over b event r (clock (i + 1)) ≡ false))))

-- Some rule of the list is the one given.
abbrev pub Among : TriggerRule → List TriggerRule → Type 0
Among r [] = ⊥
Among r (x ∷ xs) = (r ≡ x) ⊎ Among r xs

shift : (k i : ℕ) → k + (i + 1) ≡ k + i + 1
shift k i = omega arith

module _ (b : Breaker) (event : SecurityEvent) where
  Fires-later :
      (k : ℕ) (clock : Clock) (r : TriggerRule)
      → Fires (later k clock) b event r
      → Fires clock b event r
  Fires-later k clock r f = record {
    enabled = f.enabled;
    matching = f.matching;
    reading = k + f.reading;
    cooled = f.cooled;
    exceeded = subst (λ i. over b event r (clock i) ≡ true) (shift k f.reading) f.exceeded;
  }

  Silent-later :
      (k : ℕ) (clock : Clock) (r : TriggerRule)
      → Silent (later k clock) b event r
      → Silent clock b event r
  Silent-later k clock r (inl off) = inl off
  Silent-later k clock r (inr (inl other)) = inr (inl other)
  Silent-later k clock r (inr (inr (i, inl cooling))) = inr (inr (k + i, inl cooling))
  Silent-later k clock r (inr (inr (i, inr quiet))) =
      inr (inr (k + i, inr (subst (λ j. over b event r (clock j) ≡ false) (shift k i) quiet)))

  abbrev Found : Clock → List TriggerRule → TriggerRule → Type 0
  Found clock rs r = Among r rs × Fires clock b event r

  Found-later :
      (k : ℕ) (clock : Clock) (x r : TriggerRule) (rs : List TriggerRule)
      → Found (later k clock) rs r
      → Found clock (x ∷ rs) r
  Found-later k clock x r rs (m, f) = (inr m, Fires-later k clock r f)

  -- The rule that the loop finds is in the list and fires.
  first_firing_sound :
      (clock : Clock) (rs : List TriggerRule) (r : TriggerRule) (rest : Clock)
      → first_firing clock b event rs ≡ some (r, rest)
      → Found clock rs r
  unfolding first_firing
  first_firing_sound clock [] r rest h = cc
  first_firing_sound clock (x ∷ rs) r rest h = elim (Bool-cases x.enabled) [
    | inr off ↦ let (m, f) = first_firing_sound clock rs r rest (ground arith) in (inr m, f)
    | inl on ↦ elim (Bool-cases (x.trigger_type == event.trigger_type)) [
      | inr other ↦ let (m, f) = first_firing_sound clock rs r rest (ground arith) in (inr m, f)
      | inl same ↦ elim (Bool-cases (ltb (clock 0) (cool_until b event x))) [
        | inl cooling ↦
            Found-later 1 clock x r rs (first_firing_sound (later 1 clock) rs r rest (ground arith))
        | inr cooled ↦ elim (Bool-cases (over b event x (clock 1))) [
          | inr quiet ↦
              Found-later 2 clock x r rs
                (first_firing_sound (later 2 clock) rs r rest (ground arith))
          | inl exceeded ↦
              let e : r ≡ x = ground arith in
              (
                inl e,
                subst (Fires clock b event) (sym e) (record {
                  enabled = on;
                  matching = (==_iff _ _).0 same;
                  reading = 0;
                  cooled = ltb→le _ _ cooled;
                  exceeded = exceeded;
                }),
              )
        ]
      ]
    ]
  ]

  -- Where the loop finds none, every rule of the list was silent.
  first_firing_complete :
      (clock : Clock) (rs : List TriggerRule)
      → first_firing clock b event rs ≡ none
      → All (Silent clock b event) rs
  unfolding first_firing
  first_firing_complete clock [] h = tt
  first_firing_complete clock (x ∷ rs) h = elim (Bool-cases x.enabled) [
    | inr off ↦ (inl off, first_firing_complete clock rs (ground arith))
    | inl on ↦ elim (Bool-cases (x.trigger_type == event.trigger_type)) [
      | inr other ↦ (inr (inl other), first_firing_complete clock rs (ground arith))
      | inl same ↦ elim (Bool-cases (ltb (clock 0) (cool_until b event x))) [
        | inl cooling ↦ (
          inr (inr (0, inl (ltb→lt _ _ cooling))),
          All-mono _ _ (Silent-later 1 clock) rs
              (first_firing_complete (later 1 clock) rs (ground arith)),
        )
        | inr cooled ↦ elim (Bool-cases (over b event x (clock 1))) [
          | inr quiet ↦ (
            inr (inr (0, inr quiet)),
            All-mono _ _ (Silent-later 2 clock) rs
                (first_firing_complete (later 2 clock) rs (ground arith)),
          )
          | inl exceeded ↦ ground arith
        ]
      ]
    ]
  ]

-- The breaker once it has stored the event.
abbrev pub heard : Breaker → SecurityEvent → Breaker
heard b event = record b { events = remember b.events event }

module _ (digest : String → ℕ → String) where
  -- An action is taken only for a rule of the breaker that fires. It is open, has the rule's level
  -- and names the event, it is the last of the actions, and its level is the one in force.
  pub report_event_sound :
      (clock : Clock) (b : Breaker) (event : SecurityEvent) (a : Action)
      → (report_event digest clock b event).1 ≡ some a
      → (r : TriggerRule) × Among r b.rules
        × Fires clock (heard b event) event r
        × (a.level ≡ r.level)
        × (a.trigger_event_id ≡ event.event_id)
        × (a.state ≡ opened)
        × ((report_event digest clock b event).0.current_level ≡ some a.level)
        × ((report_event digest clock b event).0.current_state ≡ opened)
        × ((report_event digest clock b event).0.actions ≡ b.actions ++ a ∷ [])
  unfolding report_event execute
  report_event_sound clock b event a h =
      elim (Option-cases (first_firing clock (heard b event) event b.rules)) [
        | inl e ↦ ground arith
        | inr ((r, rest), e) ↦
            let (m, f) = first_firing_sound (heard b event) event clock b.rules r rest e in
            (
              r,
              m,
              f,
              ground arith,
              ground arith,
              ground arith,
              ground arith,
              ground arith,
              ground arith,
            )
      ]

  -- Where no action is taken, every rule was disabled, of another type, in its cooldown or under
  -- its threshold, and the event is stored and nothing else changes.
  pub report_event_complete :
      (clock : Clock) (b : Breaker) (event : SecurityEvent)
      → (report_event digest clock b event).1 ≡ none
      → All (Silent clock (heard b event) event) b.rules
        × ((report_event digest clock b event).0 ≡ heard b event)
  unfolding report_event execute
  report_event_complete clock b event h =
      elim (Option-cases (first_firing clock (heard b event) event b.rules)) [
        | inl e ↦ (first_firing_complete (heard b event) event clock b.rules e, ground arith)
        | inr ((r, rest), e) ↦ ground arith
      ]

  -- A trigger below the level in force lowers it, and the action of the higher level stays open.
  pub lower_trigger_lowers :
      (clock : Clock) (b : Breaker) (event : SecurityEvent) (a : Action) (l : Level)
      → b.current_level ≡ some l
      → (report_event digest clock b event).1 ≡ some a
      → order a.level < order l
      → (m : Level) × ((report_event digest clock b event).0.current_level ≡ some m)
        × (order m < order l)
        × (count is_open (report_event digest clock b event).0.actions
            ≡ count is_open b.actions + 1)
  unfolding report_event execute BreakerState-discrete is_open
  lower_trigger_lowers clock b event a l _ h low =
      elim (Option-cases (first_firing clock (heard b event) event b.rules)) [
        | inl e ↦ ground arith
        | inr ((r, rest), e) ↦
            (a.level, ground arith, low, ground (arith, count-append is_open b.actions (a ∷ [])))
      ]
