-- ===== src/Validator/Contents.antt =====
-- evolution/event_input_validator.py: what the checks of the structure, of the content and of the
-- patterns come to, in terms of the fields of the event.
use photon_kernel_sil.Prelude.{
  ℕ, ◌+◌, ◌≤◌, String, Bool, true, false, not, ◌&&◌, ◌||◌, List, [], ◌∷◌, Option, none, some, ltb,
  ◌≡◌, inl, inr, refl, sym, ap, ◌∙◌, subst, arith, ◌==◌, string_eq, any, Bool-cases, Option-cases,
  if-true, if-false,
}
use photon_kernel_sil.Prelude.Dict.{Dict, get}
use photon_kernel_sil.Validator.Types.{
  ValidationResultCode-discrete, valid, invalid_structure, invalid_content, code_eq, Value, is_text,
  is_number, is_other, Event,
}
use photon_kernel_sil.Validator.Checks.{
  Library, malicious_patterns, field_length_limits, valid_severities, passed, refused, has_text,
  has_number, text_of, timestamp_of, too_long, harmless, score_text, score_event,
  validate_structure, validate_content,
}

text_inside :
    (o : Option Value)
    → (elim o [
      | none ↦ false
      | some v ↦ elim v [ is_text s ↦ true | is_number n ↦ false | is_other s ↦ false ]
    ])
      ≡ true
    → (s : String) × (o ≡ some (is_text s))
text_inside none h = absurd (ground (arith, h))
text_inside (some (is_text s)) h = (s, refl)
text_inside (some (is_number n)) h = absurd (ground (arith, h))
text_inside (some (is_other s)) h = absurd (ground (arith, h))

number_inside :
    (o : Option Value)
    → (elim o [
      | none ↦ false
      | some v ↦ elim v [ is_text s ↦ false | is_number n ↦ true | is_other s ↦ false ]
    ])
      ≡ true
    → (n : ℕ) × (o ≡ some (is_number n))
number_inside none h = absurd (ground (arith, h))
number_inside (some (is_text s)) h = absurd (ground (arith, h))
number_inside (some (is_number n)) h = (n, refl)
number_inside (some (is_other s)) h = absurd (ground (arith, h))

-- An event with the fields that the validator asks for, at the time `now`
pub record IsWellFormed (lib : Library) (now : ℕ) (event : Event) : Type 0 where
  pub event_id : String
  pub identified : get event "event_id" ≡ some (is_text event_id)
  pub source : String
  pub sent : get event "source" ≡ some (is_text source)
  pub severity : String
  pub graded : get event "severity" ≡ some (is_text severity)
  pub known : any (λ s. s == lib.lower severity) valid_severities ≡ true
  pub timestamp : ℕ
  pub dated : get event "timestamp" ≡ some (is_number timestamp)
  pub not_late : timestamp ≤ now + 3600000000
  pub not_early : now ≤ timestamp + 31536000000000

abbrev pub longer : Library → ℕ → Option Value → Bool
longer lib n none = false
longer lib n (some (is_text s)) = ltb n (lib.text_length s)
longer lib n (some (is_number m)) = false
longer lib n (some (is_other s)) = false

-- A text in which one of the patterns is found that no security event has
abbrev pub dangerous : Library → Value → Bool
dangerous lib (is_number n) = false
dangerous lib (is_other s) = false
dangerous lib (is_text s) =
    lib.search "command_injection" s
    || (lib.search "path_traversal" s
        || (lib.search "sql_injection" s
            || (lib.search "xss" s
                || (lib.search "control_characters" s || lib.search "suspicious_long_base64" s))))

too_long-any :
    (lib : Library) (event : Event) (limits : Dict String ℕ)
    → too_long lib event limits ≡ any (λ limit. longer lib limit.1 (get event limit.0)) limits
too_long-any lib event [] = refl
too_long-any lib event ((key, max_len) ∷ limits) =
    ground (arith, one (get event key), too_long-any lib event limits)
  where
    one :
        (o : Option Value)
        → ((elim o [
          | none ↦ false
          | some v ↦ elim v [ is_text s ↦ true | is_number n ↦ false | is_other s ↦ false ]
        ])
            && ltb max_len (
                lib.text_length (elim o [
                  | none ↦ ""
                  | some v ↦ elim v [ is_text s ↦ s | is_number n ↦ "" | is_other s ↦ "" ]
                ])))
          ≡ longer lib max_len o
    one none = refl
    one (some (is_text s)) = refl
    one (some (is_number n)) = refl
    one (some (is_other s)) = refl

structure_passed :
    (lib : Library) (event : Event)
    → ((validate_structure lib event).code == valid) ≡ true
    → (has_text event "event_id"
        && (has_number event "timestamp" && (has_text event "source" && has_text event "severity"))
        && any (λ s. s == lib.lower (text_of event "severity")) valid_severities)
      ≡ true
unfolding validate_structure ValidationResultCode-discrete
structure_passed lib event h =
    let test =
      has_text event "event_id"
      && (has_number event "timestamp" && (has_text event "source" && has_text event "severity"))
      && any (λ s. s == lib.lower (text_of event "severity")) valid_severities in
    elim (Bool-cases test) [
      | inl e ↦ e
      | inr e ↦ absurd (
          ground (
            arith,
            sym (ap (λ r. r.code == valid) (if-false test passed (refused invalid_structure) e))
                ∙ h,
          ))
    ]

content_passed :
    (lib : Library) (now : ℕ) (event : Event)
    → ((validate_content lib now event).code == valid) ≡ true
    → (too_long lib event field_length_limits
        || (ltb (now + 3600000000) (timestamp_of event)
            || ltb (timestamp_of event + 31536000000000) now))
      ≡ false
unfolding validate_content ValidationResultCode-discrete
content_passed lib now event h =
    let test =
      too_long lib event field_length_limits
      || (ltb (now + 3600000000) (timestamp_of event)
          || ltb (timestamp_of event + 31536000000000) now) in
    elim (Bool-cases test) [
      | inr e ↦ e
      | inl e ↦ absurd (
          ground (
            arith,
            sym (ap (λ r. r.code == valid) (if-true test (refused invalid_content) passed e)) ∙ h,
          ))
    ]

-- Each part of a conjunction
and_parts : (a b : Bool) → (a && b) ≡ true → (a ≡ true) × (b ≡ true)
and_parts a b h = (ground (arith, h), ground (arith, h))

or_parts : (a b : Bool) → (a || b) ≡ false → (a ≡ false) × (b ≡ false)
or_parts a b h = (ground (arith, h), ground (arith, h))

pub fields-IsWellFormed :
    (lib : Library) (now : ℕ) (event : Event)
    → ((validate_structure lib event).code == valid) ≡ true
    → ((validate_content lib now event).code == valid) ≡ true
    → IsWellFormed lib now event
      × (any (λ limit. longer lib limit.1 (get event limit.0)) field_length_limits ≡ false)
fields-IsWellFormed lib now event h k =
    let (fields, known) = and_parts _ _ (structure_passed lib event h) in
    let (has_id, fields') = and_parts _ _ fields in
    let (has_time, fields'') = and_parts _ _ fields' in
    let (has_source, has_severity) = and_parts _ _ fields'' in
    let (id, found_id) = text_inside (get event "event_id") has_id in
    let (time, found_time) = number_inside (get event "timestamp") has_time in
    let (source, found_source) = text_inside (get event "source") has_source in
    let (severity, found_severity) = text_inside (get event "severity") has_severity in
    let (short, in_time) = or_parts _ _ (content_passed lib now event k) in
    let (late, early) = or_parts _ _ in_time in
    let same_time : timestamp_of event ≡ time = ground (arith, found_time) in
    let same_severity : text_of event "severity" ≡ severity = ground (arith, found_severity) in
    (
      record {
        event_id = id;
        identified = found_id;
        source = source;
        sent = found_source;
        severity = severity;
        graded = found_severity;
        known =
            subst (λ s. any (λ t. t == lib.lower s) valid_severities ≡ true) same_severity known;
        timestamp = time;
        dated = found_time;
        not_late = subst (λ t. t ≤ now + 3600000000) same_time (not_less _ _ late);
        not_early = subst (λ t. now ≤ t + 31536000000000) same_time (not_less _ _ early);
      },
      sym (too_long-any lib event field_length_limits) ∙ short,
    )
  where
    not_less : (a b : ℕ) → ltb a b ≡ false → b ≤ a
    not_less a b h = ground (arith, h)

score_text-passed :
    (lib : Library) (text : String) (names : List String) (score k : ℕ)
    → score_text lib text names score ≡ some k
    → any (λ name. lib.search name text && not (harmless name)) names ≡ false
score_text-passed lib text [] score k h = refl
score_text-passed lib text (name ∷ names) score k h = elim (Bool-cases (lib.search name text)) [
  | inl e ↦ elim (Bool-cases (harmless name)) [
    | inl f ↦
        ground
          (arith, e, f, score_text-passed lib text names (score + 1) k (ground (arith, h, e, f)))
    | inr f ↦ absurd (ground (arith, h, e, f))
  ]
  | inr e ↦ ground (arith, e, score_text-passed lib text names score k (ground (arith, h, e)))
]

pub score_event-passed :
    (lib : Library) (event : Event) (score k : ℕ)
    → score_event lib event score ≡ some k
    → any (λ entry. dangerous lib entry.1) event ≡ false
unfolding score_event
score_event-passed lib [] score k h = refl
score_event-passed lib ((key, is_number n) ∷ event) score k h =
    score_event-passed lib event score k h
score_event-passed lib ((key, is_other s) ∷ event) score k h =
    score_event-passed lib event score k h
score_event-passed lib ((key, is_text s) ∷ event) score k h =
    elim (Option-cases (score_text lib s malicious_patterns score)) [
      | inl e ↦ absurd (ground (arith, h, e))
      | inr (next_score, e) ↦
          let rest = score_event-passed lib event next_score k (rest_of next_score e) in
          let harmless_text = score_text-passed lib s malicious_patterns score next_score e in
          ground (arith, rest, harmless_text)
    ]
  where
    rest_of :
        (next_score : ℕ)
        → score_text lib s malicious_patterns score ≡ some next_score
        → score_event lib event next_score ≡ some k
    rest_of next_score e = ground (arith, h, e)
