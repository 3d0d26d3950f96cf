-- ===== src/Validation.antt =====
-- Checks of an uploaded file: app/services/validation/validators.py. The messages are values of a
-- type, and the chain that `set_next` links is a list.
pub mod Chain
use urban_octo_tribble.Base.{
  ℕ, ◌*◌, ◌<◌, Bool, true, false, List, [], ◌∷◌, Option, none, some, Text, codes, text_eq, length,
  ltb, leb, if◌then◌else◌,
}

-- What the validators read of an `UploadFile`.
pub record UploadFile : Type 0 where
  pub size : ℕ
  pub content_type : Option Text
  pub filename : Option Text

pub data Message : Type 0 where
  file_too_large : ℕ → Message
  invalid_file_type : List Text → Message
  invalid_filename size_ok type_ok filename_ok valid : Message

pub data FileValidator : Type 0 where
  file_size_validator : ℕ → FileValidator
  file_type_validator : List Text → FileValidator
  file_name_validator : FileValidator

abbrev pub is_allowed : List Text → Option Text → Bool
is_allowed allowed none = false
is_allowed [] (some t) = false
is_allowed (a ∷ allowed) (some t) = if text_eq a t then true else is_allowed allowed (some t)

-- `not file.filename or len(file.filename) > 255`
abbrev pub is_bad_name : Option Text → Bool
is_bad_name none = true
is_bad_name (some []) = true
is_bad_name (some (c ∷ t)) = ltb 255 (length (c ∷ t))

-- `_validate` of each class.
unfoldable pub check : FileValidator → UploadFile → Bool × Message
check (file_size_validator max_size) file =
    if ltb max_size file.size then (false, file_too_large max_size) else (true, size_ok)
check (file_type_validator allowed_types) file =
    if is_allowed allowed_types file.content_type
    then (true, type_ok)
    else (false, invalid_file_type allowed_types)
check file_name_validator file =
    if is_bad_name file.filename then (false, invalid_filename) else (true, filename_ok)

-- `validate` of the first of a chain, which is not empty there.
unfoldable pub validate : List FileValidator → UploadFile → Bool × Message
unfolding check
validate [] file = (true, valid)
validate (v ∷ next) file =
    let (result, message) = check v file in
    let rest = validate next file in if result then rest else (false, message)

abbrev pub max_upload : ℕ
max_upload = 10 * 1024 * 1024

abbrev pub allowed_types : List Text
allowed_types =
    codes "application/pdf"
    ∷ codes "text/plain"
    ∷ codes "application/vnd.openxmlformats-officedocument.wordprocessingml.document"
    ∷ []

-- The chain of the module's last lines.
abbrev pub validator : List FileValidator
validator =
    file_size_validator max_upload ∷ file_type_validator allowed_types ∷ file_name_validator ∷ []
