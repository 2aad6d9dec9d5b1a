-- ===== src/Service/Names.antt =====
-- Namespaces that pass validation, and texts that are joined by colons.
use tiny_cache.Base.{ℕ, ◌≤◌, ◌<◌, ◌≡◌, ◌≢◌, refl, Text, true, some, [], ◌∷◌, ◌++◌, length, arith}
use tiny_cache.Errors.{ok}
use tiny_cache.Domain.{
  validate_namespace, check_namespace, strip, matches_namespace_pattern, is_alphanumeric,
  is_name_character, all_name_characters, max_namespace_length,
}

abbrev pub NoColon : Text → Type 0
NoColon [] = Unit
NoColon (c ∷ s) = (c ≢ b':') × NoColon s

-- A text before the first colon is determined, and so is the rest.
pub split_at_colon :
    (a b x y : Text) → NoColon a → NoColon b → a ++ b':' ∷ x ≡ b ++ b':' ∷ y → (a ≡ b) × (x ≡ y)
split_at_colon [] [] x y _ _ e = (refl, cc)
split_at_colon [] (d ∷ b) x y _ h e = absurd (h.0 (cc))
split_at_colon (c ∷ a) [] x y h _ e = absurd (h.0 (cc))
split_at_colon (c ∷ a) (d ∷ b) x y h g e =
    let rest : a ++ b':' ∷ x ≡ b ++ b':' ∷ y = cc in
    let (same, after) = split_at_colon a b x y h.1 g.1 rest in (cc, after)

name_character-ne-colon : (c : ℕ) → is_name_character c ≡ true → c ≢ b':'
unfolding is_name_character is_alphanumeric
name_character-ne-colon c h e = ground arith

all_name_characters-NoColon : (s : Text) → all_name_characters s ≡ true → NoColon s
unfolding all_name_characters
all_name_characters-NoColon [] h = tt
all_name_characters-NoColon (c ∷ s) h =
    (name_character-ne-colon c (ground arith), all_name_characters-NoColon s (ground arith))

matches-NoColon : (s : Text) → matches_namespace_pattern s ≡ true → NoColon s
unfolding matches_namespace_pattern
matches-NoColon [] h = tt
matches-NoColon (c ∷ s) h = (
  name_character-ne-colon c (unfold is_name_character in ground arith),
  all_name_characters-NoColon s (ground arith),
)

checked_name :
    (name : Text)
    → check_namespace name ≡ ok tt
    → (length name ≤ max_namespace_length) × (matches_namespace_pattern name ≡ true)
unfolding check_namespace
checked_name name h = ground arith

matches-nonempty : (name : Text) → matches_namespace_pattern name ≡ true → 0 < length name
unfolding matches_namespace_pattern
matches-nonempty [] h = cc
matches-nonempty (c ∷ s) h = omega arith

normalized_name :
    (namespace name : Text)
    → validate_namespace (some namespace) ≡ ok (some name)
    → (name ≡ strip namespace) × (check_namespace name ≡ ok tt)
unfolding validate_namespace
normalized_name namespace name h = ground arith

-- A namespace that passes is the given text without the space around it; it is not empty, at most
-- 64 characters long, and has no colon.
pub validate_namespace-some :
    (namespace name : Text)
    → validate_namespace (some namespace) ≡ ok (some name)
    → (name ≡ strip namespace)
      × (0 < length name)
      × (length name ≤ max_namespace_length)
      × NoColon name
validate_namespace-some namespace name h =
    let (stripped, passed) = normalized_name namespace name h in
    let (short, matches) = checked_name name passed in
    (stripped, matches-nonempty name matches, short, matches-NoColon name matches)
