-- ===== src/Utils/Validate.antt =====
-- ValidateType of core/utils/validate_util.go.
use milvus_backup.Base.{
  ℕ, ◌≤◌, Bool, true, false, not, ◌&&◌, ◌||◌, [], ◌∷◌, ◌++◌, Option, none, some, length, ◌≡◌, ◌↔◌,
  ◌⊎◌, refl, All, All-weaken, arith, ltb, nat_eq, if◌then◌else◌,
}
use milvus_backup.Base.Text.{Text, Lacks, codes}
use milvus_backup.Base.Decimal.{print_int64}
use milvus_backup.Utils.Space.{trim_space, trim_space-Lacks}

abbrev pub max_name_length : ℕ
max_name_length = 128

-- The four errors, with what their messages quote.
pub data NameError : Type 0 where
  should_not_be_empty : Text → NameError
  too_long bad_first_character bad_character : Text → Text → NameError

invalid_msg : Text → Text → Text
invalid_msg entity_type entity =
    codes "Invalid collection " ++ (entity_type ++ (codes ": " ++ (entity ++ codes ". ")))

-- err.Error()
unfoldable pub name_error_msg : NameError → Text
unfolding invalid_msg
name_error_msg (should_not_be_empty entity_type) =
    codes "collection " ++ (entity_type ++ codes " should not be empty")
name_error_msg (too_long entity_type entity) =
    invalid_msg entity_type entity
    ++ (codes "The length of "
        ++ (entity_type
            ++ (codes " must be less than "
                ++ (print_int64 max_name_length ++ codes " characters."))))
name_error_msg (bad_first_character entity_type entity) =
    invalid_msg entity_type entity
    ++ (codes "The first character of  "
        ++ (entity_type ++ codes " must be an underscore or letter."))
name_error_msg (bad_character entity_type entity) =
    invalid_msg entity_type entity
    ++ (entity_type ++ codes " can only contain numbers, letters and underscores.")

unfoldable pub is_alpha : ℕ → Bool
is_alpha c = if (ltb c b'A' || ltb b'Z' c) && (ltb c b'a' || ltb b'z' c) then false else true

unfoldable pub is_number : ℕ → Bool
is_number c = if ltb c b'0' || ltb b'9' c then false else true

-- The loop over the bytes from index 1.
unfoldable pub bad_byte : Text → Bool
unfolding is_alpha is_number
bad_byte [] = false
bad_byte (c ∷ s) = (not (nat_eq c b'_') && not (is_alpha c) && not (is_number c)) || bad_byte s

-- What follows the trimming. Nil is `none`.
validate_name : Text → Text → Option NameError
unfolding bad_byte
validate_name entity_type [] = some (should_not_be_empty entity_type)
validate_name entity_type (first ∷ rest) =
    if ltb max_name_length (length (first ∷ rest))
    then some (too_long entity_type (first ∷ rest))
    else if not (nat_eq first b'_') && not (is_alpha first)
    then some (bad_first_character entity_type (first ∷ rest))
    else if bad_byte rest
    then some (bad_character entity_type (first ∷ rest))
    else none

unfoldable pub validate_type : Text → Text → Option NameError
unfolding validate_name trim_space
validate_type entity entity_type = validate_name entity_type (trim_space entity)

abbrev pub IsLetter : ℕ → Type 0
IsLetter c = ((b'A' ≤ c) × (c ≤ b'Z')) ⊎ ((b'a' ≤ c) × (c ≤ b'z'))

abbrev pub IsWord : ℕ → Type 0
IsWord c = (c ≡ b'_') ⊎ IsLetter c ⊎ ((b'0' ≤ c) × (c ≤ b'9'))

-- What a name may be.
abbrev pub IsName : Text → Type 0
IsName [] = ⊥
IsName (c ∷ s) = (length (c ∷ s) ≤ max_name_length) × ((c ≡ b'_') ⊎ IsLetter c) × All IsWord s

bad_byte_iff : (s : Text) → (bad_byte s ≡ false) ↔ All IsWord s
unfolding bad_byte
bad_byte_iff [] = (λ _. tt, λ _. refl)
bad_byte_iff (c ∷ s) = ground (arith, bad_byte_iff s)

validate_name-none_iff : (entity_type s : Text) → (validate_name entity_type s ≡ none) ↔ IsName s
unfolding validate_name
validate_name-none_iff entity_type [] = ground arith
validate_name-none_iff entity_type (c ∷ s) = ground (arith, bad_byte_iff s)

-- A text is accepted exactly when, trimmed, it is a name: a letter or an underscore, then letters,
-- digits and underscores, at most 128 bytes in all.
pub validate_type-none_iff :
    (entity entity_type : Text)
    → (validate_type entity entity_type ≡ none) ↔ IsName (trim_space entity)
unfolding validate_type
validate_type-none_iff entity entity_type = validate_name-none_iff entity_type (trim_space entity)

IsName-Lacks : (s : Text) → IsName s → Lacks b'/' s
IsName-Lacks [] h = tt
IsName-Lacks (c ∷ s) h = (ground arith, All-weaken s (λ d w. ground arith) h.2)

-- An accepted text holds no slash, also in the spaces that the check trims.
pub validate_type-Lacks :
    (entity entity_type : Text) → validate_type entity entity_type ≡ none → Lacks b'/' entity
validate_type-Lacks entity entity_type h =
    trim_space-Lacks entity
      (IsName-Lacks (trim_space entity) ((validate_type-none_iff entity entity_type).0 h))
