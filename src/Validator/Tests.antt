-- ===== src/Validator/Tests.antt =====
-- Runs of the validator at concrete inputs.
use photon_kernel_sil.Prelude.{ℕ, ◌+◌, true, false, List, [], ◌∷◌, none, string_eq}
use photon_kernel_sil.Validator.Types.{is_text, is_number, Event, EventInputValidator}
use photon_kernel_sil.Validator.Checks.{Library}
use photon_kernel_sil.Validator.Chain.{new_validator}
use photon_kernel_sil.Validator.Counts.{Call, validates, trusts}

abbrev plain : Library
plain = record {
  search = λ name text. false;
  lower = λ s. s;
  text_length = λ s. 5;
  text_take = λ n s. s;
  without_controls = λ s. s;
  signature_of = λ event. "signed";
  listed = λ ids. ids;
}

abbrev start : EventInputValidator
start = new_validator [] true 100 true true 10000

abbrev event : Event
event =
    ("event_id", is_text "e1")
    ∷ ("timestamp", is_number 40000000000000)
    ∷ ("source", is_text "audit_chain")
    ∷ ("severity", is_text "high")
    ∷ ("signature", is_text "signed")
    ∷ []

abbrev clock : ℕ → ℕ
clock k = 40000000000000 + k

abbrev calls : List Call
calls = validates clock event none ∷ validates clock event none ∷ trusts "siem" ∷ []
