-- ===== src/Validator/Counts.antt =====
-- evolution/event_input_validator.py: the statistics over the histories of a validator.
use photon_kernel_sil.Prelude.{
  ℕ, ◌+◌, String, Bool, true, false, ◌&&◌, List, [], ◌∷◌, Option, leb, ◌≡◌, inl, inr, sym, subst,
  arith, ◌==◌, string_eq, any, length, Bool-cases, Option-cases, if◌then◌else◌, if-true, if-false,
}
use photon_kernel_sil.Prelude.Dict.{Dict, get, get_or, put}
use photon_kernel_sil.Prelude.Text.{truthy}
use photon_kernel_sil.Validator.Types.{
  valid, code_value, code_eq, Event, ValidationResult, EventInputValidator,
}
use photon_kernel_sil.Validator.Checks.{
  Library, passed, text_of, recent, validate_source, check_rate_limit, validate_structure,
  validate_content, score_event, detect_malicious_patterns, verify_signature, check_duplicate,
}
use photon_kernel_sil.Validator.Chain.{
  source_of, reject, and_then, accept, from_duplicate, from_signature, from_patterns, from_content,
  from_structure, from_rate_limit, validate, add_trusted_source, remove_trusted_source,
}

abbrev pub sum_of : Dict String ℕ → ℕ
sum_of [] = 0
sum_of ((k, n) ∷ d) = n + sum_of d

sum_of-put : (d : Dict String ℕ) (k : String) → sum_of (put d k (get_or d k 0 + 1)) ≡ sum_of d + 1
unfolding put get_or get
sum_of-put [] k = omega arith
sum_of-put ((j, n) ∷ d) k = ground (arith, sum_of-put d k)

-- The events are those accepted, those rejected and `more`; each rejection has its reason.
abbrev pub Counts : ℕ → EventInputValidator → Type 0
Counts more v =
    (v.stats.total_events ≡ v.stats.valid_events + v.stats.rejected_events + more)
    × (v.stats.rejected_events ≡ sum_of v.stats.rejected_by_reason)

abbrev Pair : Type 0
Pair = EventInputValidator × ValidationResult

reject-Counts :
    (v : EventInputValidator) (r : ValidationResult) → Counts 1 v → Counts 0 (reject v r).0
unfolding reject
reject-Counts v r (a, b) =
    (omega (arith, a), omega (arith, b, sum_of-put v.stats.rejected_by_reason (code_value r.code)))

and_then-Counts :
    (z : Pair) (rest : EventInputValidator → Pair)
    → Counts 1 z.0
    → ((v : EventInputValidator) → Counts 1 v → Counts 0 (rest v).0)
    → Counts 0 (and_then z rest).0
and_then-Counts (v, r) rest c more = elim (Bool-cases (r.code == valid)) [
  | inl e ↦
      subst (λ (z : Pair). Counts 0 z.0) (sym (if-true (r.code == valid) (rest v) (reject v r) e))
        (more v c)
  | inr e ↦
      subst (λ (z : Pair). Counts 0 z.0) (sym (if-false (r.code == valid) (rest v) (reject v r) e))
        (reject-Counts v r c)
]

-- A check that counts one of two ways leaves these counts.
either-Counts :
    (b : Bool) (y z : Pair) → Counts 1 y.0 → Counts 1 z.0 → Counts 1 (if b then y else z).0
either-Counts true y z c d = c
either-Counts false y z c d = d

module _ (lib : Library) where
  detect-Counts :
      (v : EventInputValidator) (event : Event)
      → Counts 1 v
      → Counts 1 (detect_malicious_patterns lib v event).0
  unfolding detect_malicious_patterns
  detect-Counts v event c = elim (Option-cases (score_event lib event 0)) [
    | inl e ↦ rw (e, detect_malicious_patterns) c
    | inr (score, e) ↦ rw (e, detect_malicious_patterns) c
  ]

  from_duplicate-Counts :
      (event : Event) (score : ℕ) (v : EventInputValidator)
      → Counts 1 v
      → Counts 0 (from_duplicate lib event score v).0
  unfolding check_duplicate
  from_duplicate-Counts event score v c =
      and_then-Counts
        (if v.enable_duplicate_check then check_duplicate lib v event else (v, passed))
        (λ u. accept lib u event score)
        (either-Counts v.enable_duplicate_check (check_duplicate lib v event) (v, passed)
          (either-Counts (any (λ i. i == text_of event "event_id") v.duplicate_cache) _ _ c c) c)
        (λ u d. (omega (arith, d.0), d.1))

  from_signature-Counts :
      (event : Event) (score : ℕ) (v : EventInputValidator)
      → Counts 1 v
      → Counts 0 (from_signature lib event score v).0
  unfolding verify_signature
  from_signature-Counts event score v c =
      and_then-Counts
        (if v.enable_signature_check then verify_signature lib v event else (v, passed))
        (from_duplicate lib event score)
        (either-Counts v.enable_signature_check (verify_signature lib v event) (v, passed)
          (either-Counts
            (truthy (text_of event "signature")
              && (text_of event "signature" == lib.signature_of event))
            _ _ c c)
          c)
        (from_duplicate-Counts event score)

  from_content-Counts :
      (now : ℕ) (event : Event) (v : EventInputValidator)
      → Counts 1 v
      → Counts 0 (from_content lib now event v).0
  from_content-Counts now event v c =
      and_then-Counts (v, validate_content lib now event) (from_patterns lib event) c
        (λ u d.
          and_then-Counts (detect_malicious_patterns lib u event)
            (from_signature lib event (detect_malicious_patterns lib u event).1.risk_score)
            (detect-Counts u event d)
            (from_signature-Counts event (detect_malicious_patterns lib u event).1.risk_score))

  pub validate-Counts :
      (clock : ℕ → ℕ) (v : EventInputValidator) (event : Event) (source : Option String)
      → Counts 0 v
      → Counts 0 (validate lib clock v event source).0
  unfolding validate check_rate_limit
  validate-Counts clock v event source (a, b) =
      let v0 = record v { stats = record v.stats { total_events = v.stats.total_events + 1 } } in
      and_then-Counts (v0, validate_source v0 (source_of source event))
        (from_rate_limit lib clock event) (omega (arith, a), b)
        (λ u c.
          and_then-Counts (check_rate_limit (clock 0) u) (from_structure lib (clock 1) event)
            (either-Counts
              (leb u.max_events_per_second (length (recent (clock 0) u.event_timestamps))) _ _ c c)
            (λ t d.
              and_then-Counts (t, validate_structure lib event) (from_content lib (clock 1) event) d
                (from_content-Counts (clock 1) event)))

-- A history: events and changes of the trusted sources
pub data Call : Type 0 where
  validates : (ℕ → ℕ) → Event → Option String → Call
  trusts : String → Call
  distrusts : String → Call

unfoldable pub run : Library → EventInputValidator → List Call → EventInputValidator
run lib v [] = v
run lib v (validates clock event source ∷ calls) =
    run lib (validate lib clock v event source).0 calls
run lib v (trusts source ∷ calls) = run lib (add_trusted_source v source) calls
run lib v (distrusts source ∷ calls) = run lib (remove_trusted_source v source) calls
