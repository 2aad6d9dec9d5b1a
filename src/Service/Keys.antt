-- ===== src/Service/Keys.antt =====
-- Storage keys: two namespaces never share one, and every one is a key that a store accepts.
use tiny_cache.Base.{
  ℕ, zero, suc, ◌+◌, ◌-◌, ◌*◌, ◌/◌, ◌%◌, ◌<◌, ◌≡◌, refl, ◌∙◌, sym, Text, Bool-cases, false, Option,
  none, some, inl, inr, [], ◌∷◌, ◌++◌, length, digits, decimal, ltb, arith,
}
use tiny_cache.Errors.{ok, chain_returned}
use tiny_cache.Domain.{is_empty, validate_key, validate_namespace}
use tiny_cache.Service.{namespaced, qualified_key, storage_key}
use tiny_cache.Service.Names.{NoColon, split_at_colon, validate_namespace-some}

NoColon-append : (s t : Text) → NoColon s → NoColon t → NoColon (s ++ t)
NoColon-append [] t h g = g
NoColon-append (c ∷ s) t h g = (h.0, NoColon-append s t h.1 g)

digits-NoColon : (fuel n : ℕ) → NoColon (digits fuel n)
unfolding digits
digits-NoColon zero n = tt
digits-NoColon (suc fuel) n = elim (Bool-cases (ltb n 10)) [
  | inl small ↦ rw (small, digits) (λ e. absurd (ground arith), tt)
  | inr large ↦
      rw (large, digits)
        (NoColon-append (digits fuel (n / 10)) ((b'0' + n % 10) ∷ []) (digits-NoColon fuel (n / 10))
          (λ e. absurd (omega arith), tt))
]

-- what the digits stand for
abbrev pub number : ℕ → Text → ℕ
number acc [] = acc
number acc (c ∷ s) = number (acc * 10 + (c - b'0')) s

number-append :
    (acc : ℕ) (s : Text) (c : ℕ) → number acc (s ++ c ∷ []) ≡ number acc s * 10 + (c - b'0')
number-append acc [] c = refl
number-append acc (d ∷ s) c = number-append (acc * 10 + (d - b'0')) s c

-- With more fuel than `n` the digits stand for `n`.
number-digits : (fuel n : ℕ) → n < fuel → number 0 (digits fuel n) ≡ n
unfolding digits
number-digits zero n h = elim h [ ]
number-digits (suc fuel) n h = elim (Bool-cases (ltb n 10)) [
  | inl small ↦ rw (small, digits) (omega arith)
  | inr large ↦
      rw (large, digits)
        (omega (
          arith,
          number-append 0 (digits fuel (n / 10)) (b'0' + n % 10),
          number-digits fuel (n / 10) (ground arith),
        ))
]

pub number-decimal : (n : ℕ) → number 0 (decimal n) ≡ n
unfolding decimal
number-decimal n = number-digits (suc n) n (omega arith)

decimal-NoColon : (n : ℕ) → NoColon (decimal n)
unfolding decimal
decimal-NoColon n = digits-NoColon (suc n) n

namespaced-injective :
    (a b j k : Text) → NoColon a → NoColon b → namespaced a j ≡ namespaced b k → (a ≡ b) × (j ≡ k)
unfolding namespaced
namespaced-injective a b j k h g e =
    let (_, rest) =
      split_at_colon (decimal (length a)) (decimal (length b)) (a ++ b':' ∷ j) (b ++ b':' ∷ k)
        (decimal-NoColon (length a)) (decimal-NoColon (length b)) e in
    split_at_colon a b j k h g rest

storage_key-namespaced :
    (key namespace name : Text) {stored : Text}
    → validate_namespace (some namespace) ≡ ok (some name)
    → storage_key key (some namespace) ≡ ok stored
    → stored ≡ namespaced name key
unfolding storage_key qualified_key
storage_key-namespaced key namespace name h e = ground (arith, h)

-- Keys in namespaces are isolated: two calls that each name a namespace, one that is accepted and
-- not blank, reach the same storage key only if their namespaces are the same after normalization,
-- and their keys are the same.
pub storage_key-injective :
    (j k m n a b : Text) {stored : Text}
    → validate_namespace (some m) ≡ ok (some a)
    → validate_namespace (some n) ≡ ok (some b)
    → storage_key j (some m) ≡ ok stored
    → storage_key k (some n) ≡ ok stored
    → (a ≡ b) × (j ≡ k)
storage_key-injective j k m n a b hm hn e f =
    namespaced-injective a b j k (validate_namespace-some m a hm).3
      (validate_namespace-some n b hn).3
      (sym (storage_key-namespaced j m a hm e) ∙ storage_key-namespaced k n b hn f)

is_empty-append : (s t : Text) (c : ℕ) → is_empty (s ++ c ∷ t) ≡ false
is_empty-append [] t c = refl
is_empty-append (d ∷ s) t c = refl

is_empty-namespaced : (name key : Text) → is_empty (namespaced name key) ≡ false
unfolding namespaced
is_empty-namespaced name key = is_empty-append (decimal (length name)) (name ++ b':' ∷ key) b':'

qualified_key-IsKey :
    (key : Text) (name : Option Text) (stored : Text)
    → validate_key key ≡ ok tt
    → qualified_key key name ≡ ok stored
    → validate_key stored ≡ ok tt
unfolding qualified_key validate_key
qualified_key-IsKey key none stored a h = ground arith
qualified_key-IsKey key (some name) stored a h = ground (arith, is_empty-namespaced name key)

-- Every storage key passes the store's own validation, so the service never has a store reject
-- a key.
pub storage_key-IsKey :
    (key : Text) (namespace : Option Text) (stored : Text)
    → storage_key key namespace ≡ ok stored
    → validate_key stored ≡ ok tt
unfolding storage_key
storage_key-IsKey key namespace stored h =
    let (_, accepted, h') = chain_returned (validate_key key) _ h in
    let (name, _, q) = chain_returned (validate_namespace namespace) _ h' in
    qualified_key-IsKey key name stored accepted q
