-- ===== src/Validator/Chain.antt =====
-- evolution/event_input_validator.py: the chain of the checks, and the sources that are trusted.
use photon_kernel_sil.Prelude.{
  ℕ, ◌+◌, String, Bool, not, ◌&&◌, List, [], ◌∷◌, ◌++◌, Option, none, some, ◌==◌, string_eq, any,
  keep, if◌then◌else◌,
}
use photon_kernel_sil.Prelude.Dict.{get_or, put}
use photon_kernel_sil.Prelude.Text.{or_else}
use photon_kernel_sil.Validator.Types.{
  valid, code_value, code_eq, Event, ValidationResult, ValidatorStats, EventInputValidator,
}
use photon_kernel_sil.Validator.Checks.{
  Library, no_stats, passed, text_of, validate_source, check_rate_limit, validate_structure,
  validate_content, detect_malicious_patterns, verify_signature, check_duplicate, clean_event,
}

-- `source or event.get("source", "")`
abbrev pub source_of : Option String → Event → String
source_of none event = text_of event "source"
source_of (some s) event = or_else s (text_of event "source")

unfoldable pub reject :
    EventInputValidator → ValidationResult → EventInputValidator × ValidationResult
reject v r =
    let reason = code_value r.code in
    (
      record v {
        stats = record v.stats {
          rejected_events = v.stats.rejected_events + 1;
          rejected_by_reason =
              put v.stats.rejected_by_reason reason
                (get_or v.stats.rejected_by_reason reason 0 + 1);
        };
      },
      r,
    )

-- One check of the chain, and what comes after it
abbrev pub and_then :
    EventInputValidator × ValidationResult
    → (EventInputValidator → EventInputValidator × ValidationResult)
    → EventInputValidator × ValidationResult
and_then (v, r) rest = if r.code == valid then rest v else reject v r

module _ (lib : Library) where
  abbrev pub accept : EventInputValidator → Event → ℕ → EventInputValidator × ValidationResult
  accept v event score = (
    record v { stats = record v.stats { valid_events = v.stats.valid_events + 1 } },
    record { code = valid; cleaned_event = some (clean_event lib event); risk_score = score },
  )

  -- The steps of the chain from the last one to the first, each with all that comes after it
  abbrev pub from_duplicate :
      Event → ℕ → EventInputValidator → EventInputValidator × ValidationResult
  from_duplicate event score v =
      and_then (if v.enable_duplicate_check then check_duplicate lib v event else (v, passed))
        (λ v'. accept v' event score)

  abbrev pub from_signature :
      Event → ℕ → EventInputValidator → EventInputValidator × ValidationResult
  from_signature event score v =
      and_then (if v.enable_signature_check then verify_signature lib v event else (v, passed))
        (from_duplicate event score)

  abbrev pub from_patterns : Event → EventInputValidator → EventInputValidator × ValidationResult
  from_patterns event v =
      and_then (detect_malicious_patterns lib v event)
        (from_signature event (detect_malicious_patterns lib v event).1.risk_score)

  abbrev pub from_content : ℕ → Event → EventInputValidator → EventInputValidator × ValidationResult
  from_content now event v = and_then (v, validate_content lib now event) (from_patterns event)

  abbrev pub from_structure :
      ℕ → Event → EventInputValidator → EventInputValidator × ValidationResult
  from_structure now event v = and_then (v, validate_structure lib event) (from_content now event)

  abbrev pub from_rate_limit :
      (ℕ → ℕ) → Event → EventInputValidator → EventInputValidator × ValidationResult
  from_rate_limit clock event v =
      and_then (check_rate_limit (clock 0) v) (from_structure (clock 1) event)

  -- `validate`, with two readings of the clock
  unfoldable pub validate :
      (ℕ → ℕ) → EventInputValidator → Event → Option String → EventInputValidator × ValidationResult
  validate clock v event source =
      let v0 = record v { stats = record v.stats { total_events = v.stats.total_events + 1 } } in
      and_then (v0, validate_source v0 (source_of source event)) (from_rate_limit clock event)

unfoldable pub add_trusted_source : EventInputValidator → String → EventInputValidator
add_trusted_source v source = record v {
  trusted_sources =
      if any (λ s. s == source) v.trusted_sources
      then v.trusted_sources
      else v.trusted_sources ++ source ∷ [];
}

unfoldable pub remove_trusted_source : EventInputValidator → String → EventInputValidator
remove_trusted_source v source = record v {
  trusted_sources = keep (λ s. not (s == source)) v.trusted_sources;
}

-- The rate of rejections of `get_stats` is left out.
unfoldable pub get_stats : EventInputValidator → ValidatorStats
get_stats v = v.stats

-- `EventInputValidator(…)` with its sources, `given` or the default ones; `secret` is whether there is one.
unfoldable pub new_validator : List String → Bool → ℕ → Bool → Bool → ℕ → EventInputValidator
new_validator sources secret max_events signature_check duplicate_check max_cache = record {
  trusted_sources = elim sources [
    | [] ↦
        "seccomp_logger" ∷ "audit_chain" ∷ "kvm_monitor" ∷ "ebpf_monitor" ∷ "runtime_guard"
        ∷ "release_gate" ∷ []
    | s ∷ rest ↦ s ∷ rest
  ];
  max_events_per_second = max_events;
  enable_signature_check = signature_check && secret;
  enable_duplicate_check = duplicate_check;
  stats = no_stats;
  event_timestamps = [];
  duplicate_cache = [];
  max_duplicate_cache_size = max_cache;
}
