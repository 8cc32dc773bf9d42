-- ===== src/Validator/Checks.antt =====
-- evolution/event_input_validator.py: the checks of an event and their chain.
use photon_kernel_sil.Prelude.{
  ℕ, ◌+◌, ◌/◌, String, Bool, true, false, ◌&&◌, ◌||◌, List, [], ◌∷◌, ◌++◌, Option, none, some, ltb,
  leb, ◌==◌, string_eq, any, keep, drop, length, if◌then◌else◌,
}
use photon_kernel_sil.Prelude.Dict.{Dict, get, get_or}
use photon_kernel_sil.Prelude.Text.{truthy}
use photon_kernel_sil.Validator.Types.{
  ValidationResultCode, valid, invalid_structure, invalid_content, untrusted_source, rate_limited,
  signature_invalid, duplicate, malicious_pattern, code_eq, Value, is_text, is_number, is_other,
  Event, ValidationResult, ValidatorStats, EventInputValidator,
}

-- What the validator takes from Python: `re.search` of each pattern under its name, `str.lower`, the
-- length of a text and its first characters, `re.sub` of control characters, the HMAC of an event
-- without its signature, and the order in which a set is listed.
pub record Library : Type 0 where
  pub search : String → String → Bool
  pub lower : String → String
  pub text_length : String → ℕ
  pub text_take : ℕ → String → String
  pub without_controls : String → String
  pub signature_of : Event → String
  pub listed : List String → List String

-- The names of `MALICIOUS_PATTERNS`
abbrev pub malicious_patterns : List String
malicious_patterns =
    "command_injection" ∷ "path_traversal" ∷ "sql_injection" ∷ "xss" ∷ "control_characters"
    ∷ "suspicious_long_base64" ∷ "namespace_escape_keyword" ∷ "high_risk_syscall_keyword" ∷ []

abbrev pub field_length_limits : Dict String ℕ
field_length_limits =
    ("event_id", 128)
    ∷ ("source", 64)
    ∷ ("severity", 32)
    ∷ ("description", 1024)
    ∷ ("payload", 4096)
    ∷ ("rule_id", 128)
    ∷ ("attack_type", 64)
    ∷ []

abbrev pub valid_severities : List String
valid_severities = "low" ∷ "medium" ∷ "high" ∷ "critical" ∷ "info" ∷ "warning" ∷ []

abbrev pub no_stats : ValidatorStats
no_stats = record {
  total_events = 0;
  valid_events = 0;
  rejected_events = 0;
  rejected_by_reason = [];
  rate_limit_triggers = 0;
  malicious_pattern_hits = 0;
  signature_failures = 0;
  duplicate_events = 0;
}

-- The result of one check: nothing, or a rejection; and a score
abbrev pub passed : ValidationResult
passed = record { code = valid; cleaned_event = none; risk_score = 0 }

abbrev pub refused : ValidationResultCode → ValidationResult
refused code = record { code = code; cleaned_event = none; risk_score = 0 }

abbrev pub text_of : Event → String → String
text_of event key = elim (get event key) [
  | none ↦ ""
  | some v ↦ elim v [ is_text s ↦ s | is_number n ↦ "" | is_other s ↦ "" ]
]

unfoldable pub validate_source : EventInputValidator → String → ValidationResult
validate_source v source =
    if truthy source && any (λ s. s == source) v.trusted_sources
    then passed
    else refused untrusted_source

-- The time stamps of the last second
unfoldable pub recent : ℕ → List ℕ → List ℕ
recent now stamps = keep (λ t. ltb now (t + 1000000)) stamps

unfoldable pub check_rate_limit : ℕ → EventInputValidator → EventInputValidator × ValidationResult
unfolding recent
check_rate_limit now v =
    let stamps = recent now v.event_timestamps in
    if leb v.max_events_per_second (length stamps)
    then (
      record v {
        event_timestamps = stamps;
        stats = record v.stats { rate_limit_triggers = v.stats.rate_limit_triggers + 1 };
      },
      refused rate_limited,
    )
    else (record v { event_timestamps = stamps ++ now ∷ [] }, passed)

abbrev pub has_text : Event → String → Bool
has_text event key = elim (get event key) [
  | none ↦ false
  | some v ↦ elim v [ is_text s ↦ true | is_number n ↦ false | is_other s ↦ false ]
]

abbrev pub has_number : Event → String → Bool
has_number event key = elim (get event key) [
  | none ↦ false
  | some v ↦ elim v [ is_text s ↦ false | is_number n ↦ true | is_other s ↦ false ]
]

abbrev pub timestamp_of : Event → ℕ
timestamp_of event = elim (get event "timestamp") [
  | none ↦ 0
  | some v ↦ elim v [ is_text s ↦ 0 | is_number n ↦ n | is_other s ↦ 0 ]
]

-- A field that is too long, among the limits
abbrev pub too_long : Library → Event → Dict String ℕ → Bool
too_long lib event [] = false
too_long lib event ((key, max_len) ∷ limits) =
    (has_text event key && ltb max_len (lib.text_length (text_of event key)))
    || too_long lib event limits

-- The names of patterns that a security event may well have
abbrev pub harmless : String → Bool
harmless name = (name == "namespace_escape_keyword") || (name == "high_risk_syscall_keyword")

-- The loop over the patterns for one text: the score so far, or none at a malicious pattern
abbrev pub score_text : Library → String → List String → ℕ → Option ℕ
score_text lib text [] score = some score
score_text lib text (name ∷ names) score =
    let next_score = score_text lib text names (score + 1) in
    let same_score = score_text lib text names score in
    if lib.search name text then if harmless name then next_score else none else same_score

-- The loop over the fields
unfoldable pub score_event : Library → Event → ℕ → Option ℕ
score_event lib [] score = some score
score_event lib ((key, is_number n) ∷ event) score = score_event lib event score
score_event lib ((key, is_other s) ∷ event) score = score_event lib event score
score_event lib ((key, is_text s) ∷ event) score =
    elim (score_text lib s malicious_patterns score) [
      | none ↦ none
      | some next_score ↦ score_event lib event next_score
    ]

module _ (lib : Library) where
  unfoldable pub validate_structure : Event → ValidationResult
  validate_structure event =
      if has_text event "event_id"
        && (has_number event "timestamp" && (has_text event "source" && has_text event "severity"))
        && any (λ s. s == lib.lower (text_of event "severity")) valid_severities
      then passed
      else refused invalid_structure

  unfoldable pub validate_content : ℕ → Event → ValidationResult
  validate_content now event =
      if too_long lib event field_length_limits
        || (ltb (now + 3600000000) (timestamp_of event)
            || ltb (timestamp_of event + 31536000000000) now)
      then refused invalid_content
      else passed

  unfoldable pub detect_malicious_patterns :
      EventInputValidator → Event → EventInputValidator × ValidationResult
  unfolding score_event
  detect_malicious_patterns v event = elim (score_event lib event 0) [
    | none ↦ (
      record v {
        stats = record v.stats { malicious_pattern_hits = v.stats.malicious_pattern_hits + 1 };
      },
      record (refused malicious_pattern) { risk_score = 10 },
    )
    | some score ↦ (v, record passed { risk_score = score })
  ]

  -- A signature that is not a text is outside.
  unfoldable pub verify_signature :
      EventInputValidator → Event → EventInputValidator × ValidationResult
  verify_signature v event =
      let signature = text_of event "signature" in
      if truthy signature && (signature == lib.signature_of event) then (v, passed) else (
        record v { stats = record v.stats { signature_failures = v.stats.signature_failures + 1 } },
        refused signature_invalid,
      )

  unfoldable pub check_duplicate :
      EventInputValidator → Event → EventInputValidator × ValidationResult
  check_duplicate v event =
      let id = text_of event "event_id" in
      let cache = v.duplicate_cache ++ id ∷ [] in
      if any (λ i. i == id) v.duplicate_cache
      then (
        record v { stats = record v.stats { duplicate_events = v.stats.duplicate_events + 1 } },
        refused duplicate,
      )
      else (
        record v {
          duplicate_cache =
              if ltb v.max_duplicate_cache_size (length cache)
              then drop (v.max_duplicate_cache_size / 2) (lib.listed cache)
              else cache;
        },
        passed,
      )

  abbrev pub clean_value : String → Value → Value
  clean_value key (is_text s) =
      let shown = lib.without_controls s in
      let max_len = get_or field_length_limits key 8192 in
      is_text (if ltb max_len (lib.text_length shown) then lib.text_take max_len shown else shown)
  clean_value key (is_number n) = is_number n
  clean_value key (is_other s) = is_other s

  unfoldable pub clean_event : Event → Event
  clean_event [] = []
  clean_event ((key, value) ∷ event) = (key, clean_value key value) ∷ clean_event event
