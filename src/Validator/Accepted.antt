-- ===== src/Validator/Accepted.antt =====
-- evolution/event_input_validator.py: what an accepted event has passed.
use photon_kernel_sil.Prelude.{Bool, ◌≡◌, ◌==◌, string_eq}
use photon_kernel_sil.Validator.Types.{valid, code_eq, ValidationResult, EventInputValidator}

abbrev pub accepted : EventInputValidator × ValidationResult → Bool
accepted z = z.1.code == valid

-- The settings and the cache of ids, which the checks before the last one leave
record Settings (v u : EventInputValidator) : Type 0 where
  pub signatures : u.enable_signature_check ≡ v.enable_signature_check
  pub duplicates : u.enable_duplicate_check ≡ v.enable_duplicate_check
  pub cache : u.duplicate_cache ≡ v.duplicate_cache
