-- ===== src/Validator/Types.antt =====
-- evolution/event_input_validator.py: the data. Times are in microseconds, scores of risk are tenths.
use photon_kernel_sil.Prelude.{ℕ, String, Bool, List, Option, Eq, eq_of_discrete}
use photon_kernel_sil.Prelude.Dict.{Dict}

pub data ValidationResultCode : Type 0 where
  valid invalid_structure invalid_content untrusted_source rate_limited signature_invalid duplicate
        malicious_pattern :
      ValidationResultCode

unfoldable pub ValidationResultCode-discrete : Discrete ValidationResultCode
ValidationResultCode-discrete = hlevel

instance abbrev pub code_eq : Eq ValidationResultCode
code_eq = eq_of_discrete ValidationResultCode-discrete

abbrev pub code_value : ValidationResultCode → String
code_value valid = "valid"
code_value invalid_structure = "invalid_structure"
code_value invalid_content = "invalid_content"
code_value untrusted_source = "untrusted_source"
code_value rate_limited = "rate_limited"
code_value signature_invalid = "signature_invalid"
code_value duplicate = "duplicate"
code_value malicious_pattern = "malicious_pattern"

-- A value of an event: a text, a time, or something else
pub data Value : Type 0 where
  is_text : String → Value
  is_number : ℕ → Value
  is_other : String → Value

abbrev pub Event : Type 0
Event = Dict String Value

-- `reason` is left out: the code says why.
pub record ValidationResult : Type 0 where
  pub code : ValidationResultCode
  pub cleaned_event : Option Event
  pub risk_score : ℕ

pub record ValidatorStats : Type 0 where
  pub total_events : ℕ
  pub valid_events : ℕ
  pub rejected_events : ℕ
  pub rejected_by_reason : Dict String ℕ
  pub rate_limit_triggers : ℕ
  pub malicious_pattern_hits : ℕ
  pub signature_failures : ℕ
  pub duplicate_events : ℕ

-- `EventInputValidator`. The sets are lists without repetitions.
pub record EventInputValidator : Type 0 where
  pub trusted_sources : List String
  pub max_events_per_second : ℕ
  pub enable_signature_check : Bool
  pub enable_duplicate_check : Bool
  pub stats : ValidatorStats
  pub event_timestamps : List ℕ
  pub duplicate_cache : List String
  pub max_duplicate_cache_size : ℕ
