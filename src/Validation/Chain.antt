-- ===== src/Validation/Chain.antt =====
-- What a chain of validators accepts, and what it says of what it rejects.
mod Tests
use urban_octo_tribble.Base.{
  ℕ, ◌≤◌, ◌<◌, ◌≡◌, ◌↔◌, ◌⊎◌, inl, inr, Bool-cases, refl, sym, ap, ◌∙◌, Bool, true, false, List, [],
  ◌∷◌, ◌++◌, All, Option, none, some, some-injective, Text, length, ltb, if◌then◌else◌, arith,
}
use urban_octo_tribble.Validation.{
  UploadFile, Message, valid, FileValidator, is_allowed, is_bad_name, file_size_validator,
  file_type_validator, file_name_validator, check, validate, max_upload, allowed_types, validator,
}

Passes : UploadFile → FileValidator → Type 0
Passes file v = (check v file).0 ≡ true

-- A file that every validator of a chain passes is valid.
validate_all :
    (chain : List FileValidator) (file : UploadFile)
    → All (λ v. (check v file).0 ≡ true) chain
    → validate chain file ≡ (true, valid)
unfolding validate
validate_all [] file h = refl
validate_all (v ∷ next) file (h, hs) = rw (h, validate_all next file hs) refl

-- The first validator of a chain that rejects a file gives the message.
validate_first :
    (before next : List FileValidator) (v : FileValidator) (file : UploadFile)
    → All (λ w. (check w file).0 ≡ true) before
    → (check v file).0 ≡ false
    → validate (before ++ v ∷ next) file ≡ (false, (check v file).1)
unfolding validate
validate_first [] next v file h e = rw e refl
validate_first (w ∷ before) next v file (h, hs) e =
    rw (h, validate_first before next v file hs e) refl

-- Either a chain's validators all pass a file, or there is a first that does not.
chain_cases :
    (chain : List FileValidator) (file : UploadFile)
    → All (λ v. (check v file).0 ≡ true) chain
      ⊎ ((before : List FileValidator) × (v : FileValidator) × (next : List FileValidator) × (chain
            ≡ before ++ v ∷ next)
          × All (λ w. (check w file).0 ≡ true) before
          × ((check v file).0 ≡ false))
chain_cases [] file = inl tt
chain_cases (v ∷ chain) file = elim (Bool-cases (check v file).0) [
  | inl pass ↦ elim (chain_cases chain file) [
    | inl all ↦ inl (pass, all)
    | inr (before, w, next, e, h, fails) ↦
        inr (v ∷ before, w, next, ap (λ (t : List FileValidator). v ∷ t) e, (pass, h), fails)
  ]
  | inr fails ↦ inr ([], v, chain, refl, tt, fails)
]

-- A chain says of a file what its first validator that rejects the file says, or that it is valid
-- if none does.
pub validate-chain :
    (chain : List FileValidator) (file : UploadFile)
    → (All (λ v. (check v file).0 ≡ true) chain × (validate chain file ≡ (true, valid)))
      ⊎ ((before : List FileValidator) × (v : FileValidator) × (next : List FileValidator) × (chain
            ≡ before ++ v ∷ next)
          × All (λ w. (check w file).0 ≡ true) before
          × ((check v file).0 ≡ false)
          × (validate chain file ≡ (false, (check v file).1)))
validate-chain chain file = elim (chain_cases chain file) [
  | inl all ↦ inl (all, validate_all chain file all)
  | inr (before, v, next, e, h, fails) ↦ inr (
    before,
    v,
    next,
    e,
    h,
    fails,
    ap (λ c. validate c file) e ∙ validate_first before next v file h fails,
  )
]

validate-true :
    (chain : List FileValidator) (file : UploadFile)
    → (validate chain file).0 ≡ true
    → All (λ v. (check v file).0 ≡ true) chain
validate-true chain file h = elim (validate-chain chain file) [
  | inl (all, _) ↦ all
  | inr (before, v, next, _, _, _, e) ↦ cc (sym (ap (λ (x : Bool × Message). x.0) e), h)
]

size_iff :
    (m : ℕ) (file : UploadFile) → ((check (file_size_validator m) file).0 ≡ true) ↔ (file.size ≤ m)
unfolding check
size_iff m file = elim (Bool-cases (ltb m file.size)) [
  | inl e ↦ rw e (λ h. cc, λ h. absurd (ground arith))
  | inr e ↦ rw e (λ h. ground arith, λ h. refl)
]

type_iff :
    (allowed : List Text) (file : UploadFile)
    → ((check (file_type_validator allowed) file).0 ≡ true)
      ↔ (is_allowed allowed file.content_type ≡ true)
unfolding check
type_iff allowed file = elim (Bool-cases (is_allowed allowed file.content_type)) [
  | inl e ↦ rw e (λ h. refl, λ h. refl)
  | inr e ↦ rw e (λ h. h, λ h. h)
]

good_name :
    (o : Option Text)
    → is_bad_name o ≡ false
    → (name : Text) × (o ≡ some name) × (1 ≤ length name) × (length name ≤ 255)
good_name none h = cc
good_name (some []) h = cc
good_name (some (c ∷ t)) h = (c ∷ t, refl, omega arith, ground arith)

name_good :
    (o : Option Text) (name : Text)
    → o ≡ some name
    → 1 ≤ length name
    → length name ≤ 255
    → is_bad_name o ≡ false
name_good none name e h i = cc
name_good (some []) name e h i = let same = ap length (some-injective _ _ e) in absurd (omega arith)
name_good (some (c ∷ t)) name e h i = let same = ap length (some-injective _ _ e) in ground arith

name_iff :
    (file : UploadFile)
    → ((check file_name_validator file).0 ≡ true)
      ↔ ((name : Text) × (file.filename ≡ some name) × (1 ≤ length name) × (length name ≤ 255))
unfolding check
name_iff file = elim (Bool-cases (is_bad_name file.filename)) [
  | inl e ↦ rw e (
    λ h. cc,
    λ (name, named, some_name, short). cc (e, name_good file.filename name named some_name short),
  )
  | inr e ↦ rw e (λ h. good_name file.filename e, λ h. refl)
]

-- The configured chain accepts exactly the files of at most 10 MiB, of one of the three types, with
-- a name of 1 to 255 characters.
pub validator_iff :
    (file : UploadFile)
    → ((validate validator file).0 ≡ true) ↔ (
        (file.size ≤ max_upload)
        × (is_allowed allowed_types file.content_type ≡ true)
        × ((name : Text) × (file.filename ≡ some name) × (1 ≤ length name) × (length name ≤ 255)))
validator_iff file = (
  λ h.
      let (small, (typed, (named, _))) = validate-true validator file h in
      (
        (size_iff max_upload file).0 small,
        (type_iff allowed_types file).0 typed,
        (name_iff file).0 named,
      ),
  λ (small, typed, named).
      ap (λ (x : Bool × Message). x.0)
        (validate_all validator file (
          (size_iff max_upload file).1 small,
          ((type_iff allowed_types file).1 typed, ((name_iff file).1 named, tt)),
        )),
)
