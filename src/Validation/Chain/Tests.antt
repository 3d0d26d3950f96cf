-- ===== src/Validation/Chain/Tests.antt =====
-- Uploads at the configured chain.
use urban_octo_tribble.Base.{
  ◌≤◌, ◌≡◌, ◌↔◌, refl, true, false, none, some, Text, codes, text_eq, length,
}
use urban_octo_tribble.Validation.{
  UploadFile, valid, invalid_file_type, is_allowed, check, validate, max_upload, allowed_types,
  validator,
}
use urban_octo_tribble.Validation.Chain.{validator_iff}

abbrev notes : UploadFile
notes = record {
  size = 2048;
  content_type = some (codes "text/plain");
  filename = some (codes "notes.txt");
}

abbrev picture : UploadFile
picture = record { size = 2048; content_type = some (codes "image/png"); filename = none }

validate_runs : validate validator notes ≡ (true, valid)
unfolding validate check text_eq
validate_runs = refl

validate_rejects : validate validator picture ≡ (false, invalid_file_type allowed_types)
unfolding validate check text_eq
validate_rejects = refl

validator_iff_example : ((validate validator notes).0 ≡ true) ↔ (
    (notes.size ≤ max_upload)
    × (is_allowed allowed_types notes.content_type ≡ true)
    × ((name : Text) × (notes.filename ≡ some name) × (1 ≤ length name) × (length name ≤ 255)))
validator_iff_example = validator_iff notes
