-- ===== src/Guard/Detector.antt =====
-- evolution/policy_guard.py: `PromptInjectionDetector`. `search` says whether a regular expression
-- matches somewhere in a text, whatever the case; one of `INJECTION_PATTERNS` stands under its name.
use photon_kernel_sil.Prelude.{
  ℕ, ◌+◌, ◌*◌, ◌/◌, ◌%◌, min, max, String, Bool, false, ◌&&◌, ◌||◌, List, [], ◌∷◌, Option, none,
  some, ltb, ◌==◌, nat_eq, string_eq, any, keep, length, if◌then◌else◌,
}
use photon_kernel_sil.Prelude.Text.{contains}

abbrev pub injection_patterns : List String
injection_patterns =
    "ignore_previous_instructions" ∷ "disregard_previous" ∷ "role_impersonation"
    ∷ "fake_system_prompt" ∷ "prompt_leak_attempt" ∷ "security_bypass_attempt"
    ∷ "concealment_attempt" ∷ "malicious_code_injection" ∷ "encoding_bypass_attempt" ∷ []

abbrev pub suspicious_keywords : List String
suspicious_keywords =
    "jailbreak" ∷ "unrestricted" ∷ "no limits" ∷ "no rules" ∷ "ignore" ∷ "disregard" ∷ "override"
    ∷ "bypass" ∷ "root" ∷ "admin" ∷ "sudo" ∷ "privilege escalation" ∷ "secret" ∷ "api key"
    ∷ "password" ∷ "credential" ∷ "reverse shell" ∷ "backdoor" ∷ "exploit" ∷ "payload" ∷ []

pub record Detection : Type 0 where
  pub is_injection : Bool
  pub risk_score : ℕ
  pub patterns : List String
  pub keywords : List String

-- The score of a number of patterns and of keywords, higher in what a tool or a document says
unfoldable pub risk : ℕ → ℕ → String → ℕ
risk patterns keywords context_type =
    let plain = min (patterns * 2500) 7500 + min (keywords * 500) 2500 in
    if context_type == "tool_output" || context_type == "document"
    then min (plain * 3 / 2) 10000
    else plain

-- A message of a conversation, with the defaults of `get` filled in
pub record Message : Type 0 where
  pub role : String
  pub content : String

pub record ConversationDetection : Type 0 where
  pub is_injection : Bool
  pub overall_risk_score : ℕ
  pub results : List Detection
  pub cross_message_patterns : List String

-- The quotient to the nearest number, and a half to the even one, as `round` does
unfoldable pub rounded : ℕ → ℕ → ℕ
rounded n d =
    let q = n / d in
    let r = n % d in if ltb (r * 2) d then q else if ltb d (r * 2) then q + 1 else q + q % 2

module _ (search : String → String → Bool) (lower : String → String) where
  unfoldable pub detect : String → String → Detection
  unfolding risk
  detect text context_type =
      let patterns = keep (λ name. search name text) injection_patterns in
      let keywords = keep (λ kw. contains kw (lower text)) suspicious_keywords in
      if text == ""
      then record { is_injection = false; risk_score = 0; patterns = []; keywords = [] }
      else record {
        is_injection = ltb 0 (length patterns);
        risk_score = risk (length patterns) (length keywords) context_type;
        patterns = patterns;
        keywords = keywords;
      }

  abbrev pub sets_role : String → Bool
  sets_role content =
      any (λ kw. contains kw (lower content)) ("from now on" ∷ "you are now" ∷ "new role" ∷ [])

  -- The loop over the messages, after the content of the one before
  unfoldable pub detect_messages : Option String → List Message → List Detection × List String
  detect_messages previous [] = ([], [])
  detect_messages none (m ∷ messages) =
      let (results, crossed) = detect_messages (some m.content) messages in
      (detect m.content m.role ∷ results, crossed)
  detect_messages (some previous) (m ∷ messages) =
      let result = detect m.content m.role in
      let (results, crossed) = detect_messages (some m.content) messages in
      (
        result ∷ results,
        if ltb 0 result.risk_score && sets_role previous
            then "cross_message_role_then_action" ∷ crossed
            else crossed,
      )

  abbrev pub total_risk : List Detection → ℕ
  total_risk [] = 0
  total_risk (r ∷ results) = r.risk_score + total_risk results

  unfoldable pub detect_conversation : List Message → ConversationDetection
  unfolding rounded detect_messages
  detect_conversation messages =
      let (results, crossed) = detect_messages none messages in
      record {
        is_injection = any (λ r. r.is_injection) results;
        overall_risk_score = min (rounded (total_risk results) (max (length messages) 1)) 10000;
        results = results;
        cross_message_patterns = crossed;
      }
