-- ===== src/Spec/Tests.antt =====
-- The theorems about specifications at a concrete one.
use falak.Prelude.{◌≡◌, ◌↔◌, []}
use falak.Spec.Samples.{web_spec}
use falak.Spec.Validation.{validate_spec}
use falak.Spec.Validation.Sound.{IsValidSpec, validate_spec_iff}

validate_spec_iff_example : (validate_spec web_spec ≡ []) ↔ IsValidSpec web_spec
validate_spec_iff_example = validate_spec_iff web_spec
