-- ===== src/Domain.antt =====
-- tiny_cache/domain: the limits on keys and namespaces (constraints.py) and their validation
-- (validation.py). Arguments have their annotated types, so no `TypeError` arises.
use tiny_cache.Base.{
  ℕ, Text, Bytes, Bool, true, false, ◌||◌, ◌&&◌, not, Option, none, some, List, [], ◌∷◌, length,
  ltb, leb, ◌==◌, if◌then◌else◌,
}
use tiny_cache.Errors.{
  Result, ok, value_error, key_empty, key_too_long, namespace_too_long, namespace_characters,
  raise_if, ◌>>◌,
}

abbrev pub max_key_length : ℕ
max_key_length = 256

abbrev pub max_namespace_length : ℕ
max_namespace_length = 64

abbrev pub is_empty {ℓ} : {A : Type ℓ} → List A → Bool
is_empty [] = true
is_empty (_ ∷ _) = false

unfoldable pub validate_key : Text → Result (Unit {0})
validate_key key = do
  raise_if (is_empty key) (value_error key_empty)
  raise_if (ltb max_key_length (length key)) (value_error key_too_long)

-- a value that has the type `bytes`
unfoldable pub validate_value : Bytes → Result (Unit {0})
validate_value value = ok tt

-- The characters that `str.strip` takes off: those of `str.isspace`.
unfoldable pub is_space : ℕ → Bool
is_space c =
    leb 9 c && leb c 13
    || leb 28 c && leb c 32
    || c == 0x85
    || c == 0xa0
    || c == 0x1680
    || leb 0x2000 c && leb c 0x200a
    || c == 0x2028
    || c == 0x2029
    || c == 0x202f
    || c == 0x205f
    || c == 0x3000

-- `str.lstrip`
unfoldable pub lstrip : Text → Text
lstrip [] = []
lstrip (c ∷ s) = if is_space c then lstrip s else c ∷ s

-- `str.rstrip`: a space is kept only before something that is kept
unfoldable pub keep_before : ℕ → Text → Text
keep_before c [] = if is_space c then [] else c ∷ []
keep_before c (d ∷ s) = c ∷ d ∷ s

unfoldable pub rstrip : Text → Text
rstrip [] = []
rstrip (c ∷ s) = keep_before c (rstrip s)

unfoldable pub strip : Text → Text
strip s = rstrip (lstrip s)

unfoldable pub is_alphanumeric : ℕ → Bool
is_alphanumeric c = leb b'A' c && leb c b'Z' || leb b'a' c && leb c b'z' || leb b'0' c && leb c b'9'

-- `[A-Za-z0-9_.-]`
unfoldable pub is_name_character : ℕ → Bool
is_name_character c = is_alphanumeric c || c == b'_' || c == b'.' || c == b'-'

unfoldable pub all_name_characters : Text → Bool
all_name_characters [] = true
all_name_characters (c ∷ s) = is_name_character c && all_name_characters s

-- `_NAMESPACE_PATTERN.fullmatch`
unfoldable pub matches_namespace_pattern : Text → Bool
matches_namespace_pattern [] = false
matches_namespace_pattern (c ∷ s) = is_alphanumeric c && all_name_characters s

-- The checks on a namespace that is not blank.
unfoldable pub check_namespace : Text → Result (Unit {0})
check_namespace normalized = do
  raise_if (ltb max_namespace_length (length normalized)) (value_error namespace_too_long)
  raise_if (not (matches_namespace_pattern normalized)) (value_error namespace_characters)

unfoldable pub validate_namespace : Option Text → Result (Option Text)
validate_namespace none = ok none
validate_namespace (some namespace) =
    let normalized = strip namespace in
    if is_empty normalized then ok none else (do check_namespace normalized; ok (some normalized))
